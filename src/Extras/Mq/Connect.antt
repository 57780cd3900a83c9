-- ===== src/Extras/Mq/Connect.antt =====
-- What a connection that could not be made leaves of the handler.
use grizzly.Common.{◌≡◌, ◌∙◌, refl, ap, true, false, some, if◌then◌else◌, ok, err}
use grizzly.Common.Text.{Text, codes}
use grizzly.Extras.Messages.{Failure, Context, Request, said}
use grizzly.Extras.Mq.Steps.{Handler}
use grizzly.Extras.Mq.{Options, Pymqi, or_number, tls_of, required, new_connection, connect}

-- The options that a context asks for.
unfoldable pub options_of : Text → Text → Text → Context → Options
options_of connection queue_manager channel context = record {
  queue_manager = queue_manager;
  connection = connection;
  channel = channel;
  user = context.username;
  password = context.password;
  heartbeat_interval = or_number context.heartbeat_interval 300;
  tls = tls_of context.key_file context.cert_label context.username context.ssl_cipher;
}

module _ {W Q M D : Type 0} (pymqi : Pymqi W Q M D) where
  new_connection-err :
      (context : Context) (connection queue_manager channel : Text) (h : Handler W) (e : Failure)
      (world : W)
      → context.connection ≡ some connection
      → context.queue_manager ≡ some queue_manager
      → context.channel ≡ some channel
      → pymqi.connect_with_options (options_of connection queue_manager channel context) h.world
        ≡ (err e, world)
      → new_connection pymqi context h ≡ (err e, record h { connected = true; world = world })
  unfolding new_connection required options_of
  new_connection-err context connection queue_manager channel h e world has_connection has_manager
        has_channel fails =
      rw (new_connection, required, has_connection)
        (rw has_manager (rw has_channel (rw fails refl)))

  -- A handler without a connection, and a request for one with the three keys that it needs: where
  -- pymqi cannot connect, the request fails with pymqi's error, but the handler is taken for connected,
  -- and the same request then returns that the connection is re-used, and calls nothing.
  pub connect-failed :
      (request : Request) (context : Context) (connection queue_manager channel : Text)
      (h : Handler W) (e : Failure) (world : W)
      → h.connected ≡ false
      → request.context ≡ some context
      → context.connection ≡ some connection
      → context.queue_manager ≡ some queue_manager
      → context.channel ≡ some channel
      → pymqi.connect_with_options (options_of connection queue_manager channel context) h.world
        ≡ (err e, world)
      → (connect pymqi request h ≡ (err e, record h { connected = true; world = world }))
        × (connect pymqi request (record h { connected = true; world = world }) ≡ (
          ok (said (codes "re-used connection")),
          record h { connected = true; world = world },
        ))
  unfolding connect
  connect-failed request context connection queue_manager channel h e world closed has_context
        has_connection has_manager has_channel fails =
      (
        rw (connect, has_context)
            (ap
                (λ b.
                  if b
                  then (ok (said (codes "re-used connection")), h)
                  else new_connection pymqi context h)
                closed
              ∙ new_connection-err context connection queue_manager channel h e world has_connection
                  has_manager has_channel fails),
        rw (connect, has_context) refl,
      )
