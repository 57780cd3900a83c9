-- ===== src/Lib.antt =====
-- A model of grizzly, a load testing framework in which behave feature files describe scenarios that
-- run as users of locust, with the theorems that its core logic depends on.
--
-- The parts. A feature file declares variables whose initial values carry arguments
-- (grizzly_extras/arguments.py). Atomic variables (grizzly/testdata/variables) are singletons that
-- hand out values. On the master, the producer (grizzly/testdata/communication.py) collects the values
-- for an iteration of a scenario from them, counts the iterations, and keeps the keystore; the
-- consumer of each user asks it for the data of its next iteration. A user runs the tasks of its
-- scenario in order (grizzly/scenarios/iterator.py); tasks (grizzly/tasks) make the requests. The
-- dispatcher of grizzly/locust.py spreads the users over the workers. Requests to message queues go
-- through a daemon of their own (grizzly_extras/async_message): its router assigns a worker to every
-- client, and the worker answers with a handler, of which the one for IBM MQ is modelled.
--
-- The files, with paths from the root of the repository:
--   Common             conditionals, results, dictionaries as association lists in insertion order,
--                      texts as lists of code points with the methods of `str`, decimal numbers
--   Exceptions         grizzly/exceptions.py, with the classes of locust and Python that are caught
--   Events             grizzly/events/response_handler.py
--   Arguments          grizzly_extras/arguments.py (`parse_arguments`, `split_value`, `unquote`) and the
--                      separators of grizzly_extras/text.py
--   Variables          grizzly/testdata/variables/__init__.py: `AtomicVariable`; the class attribute
--                      that holds the instance is a `Slot`
--   Variables/Incrementer   integer_incrementer.py of the same directory
--   Variables/Queue    the `try` of `AtomicCsvReader.__getitem__`
--   Variables/CsvReader     csv_reader.py
--   Variables/RandomInteger random_integer.py
--   Testdata           grizzly/testdata/__init__.py: `get_variable_spec`
--   Testdata/Keystore  `_handle_request_keystore` of grizzly/testdata/communication.py, and the
--                      consumer's requests; in Keystore/Replay what each key holds by its own requests
--   Testdata/Producer  `_handle_request_testdata`, and in Producer/Persist `persist_data` and
--                      `on_test_stop`
--   Scenarios/Iterator grizzly/scenarios/iterator.py: `IteratorScenario.run`, `wait`, `iterator`
--   Tasks/Until        grizzly/tasks/until.py: `UntilRequestTask`
--   Tasks/Parent       what tasks see of the scenario that runs them, and what their `try` statements share
--   Tasks/Request      grizzly/tasks/request.py: `RequestTask` and the status codes of its response
--   Tasks/Loop, Tasks/Conditional, Tasks/AsyncGroup
--                      loop.py, conditional.py and async_group.py of grizzly/tasks
--   Tasks/Timer, Tasks/Keystore, Tasks/Wait
--                      timer.py, keystore.py, wait_between.py and wait_explicit.py of grizzly/tasks
--   Extras/Rfh2        grizzly_extras/async_message/mq/rfh2.py
--   Extras/Transformers     the content types of grizzly_extras/transformer.py
--   Extras/Daemon      grizzly_extras/async_message/daemon.py: `router`, its variables as the record
--                      `Router`, and `worker` in Daemon/Worker
--   Extras/Messages    grizzly_extras/async_message/__init__.py: requests, responses, `handle`, `register`
--   Extras/Mq          grizzly_extras/async_message/mq/__init__.py: connections and descriptors, in
--                      Mq/Search `_find_message`, in Mq/Perform an attempt of `_request` on an open
--                      queue, in Mq/Requests its retries and the methods that actions name; a method
--                      is an `Act`, a function of the handler and the world of pymqi (Mq/Steps)
--   Locust/Sorting, Locust/Cycle, Locust/Counts, Locust/Sticky
--                      the parts of `FixedUsersDispatcher` of grizzly/locust.py: the order of workers,
--                      `_infinite_cycle_gen`, the table of users, `_spread_sticky_tags_on_workers`
--   Locust/Dispatcher  its state, `_add_users_on_workers` and `_remove_users_from_workers`, and in
--                      Dispatcher/Rebalance `new_dispatch`, `add_worker` and `remove_worker`; in Dispatcher/Generator
--                      the generator `dispatcher`, resumed at the place of its last `yield`
--   Locust/Distribution     the distribution of users in `setup_locust_scenarios` of the same file
--
-- State is passed explicitly: an operation takes the instance and returns the result and the instance
-- afterwards, also where it raises. An exception is a value of `Exception`; messages and logging are
-- left out, but a handler of messages answers with the text of what was raised, a `Failure`. An
-- operation runs under a semaphore in the source, so it is one step here. The clock of the handlers is
-- in whole milliseconds.
--
-- Parameters: `int(float(text))` (floats), `pathlib` and `csv` (the record `Files`),
-- `secrets` (`pick`), locust's task sets (the record `Locust`), the request and the
-- transformer of an until task, and the atomic variables behind the producer (`fetch` on a state `W`).
-- gzip, XML and encodings of text (the record `Codec`), roundrobin's `smooth`, templates (`render`),
-- json (`loads`), and how the greenlets of a group interleave (`join`). Of the daemon, JSON and urlparse
-- (the record `Formats`), the two integrations of a worker, and what the sockets of ZeroMQ add and
-- strip; of the handler for IBM MQ, pymqi, the clock, the transformers and the texts of exceptions
-- (the record `Pymqi`). Of response handlers, rendering and the transformers (the record `Formats`).
--
-- Loops run over a list that the source iterates over, or over the number of retries that are left; of
-- the endless loop of a scenario there are the first `n` rounds. Fuel is taken by `parse_parts` of
-- Extras/Rfh2, which needs one more than there are parts, and by `place_users` of Locust/Dispatcher,
-- which needs a round for each name of the generator for each user that is to be added, and by `reduce`
-- of Locust/Distribution, which needs one more than there are users too many. The loop of the router
-- runs over what its sockets give. The search of Extras/Mq/Search takes fuel for its two loops, which
-- the source leaves by a time-out or not at all, and raises `unfinished` without it; the attempts of a
-- request count down from five.
--
-- Not modelled: sockets and the network (users, clients, listeners, the handler for Azure Service Bus),
-- third-party parsers behind the transformers, jinja2 templates, behave's steps and the start of locust.
pub mod Common
pub mod Events
pub mod Exceptions
pub mod Arguments
pub mod Variables
pub mod Testdata
pub mod Tasks
pub mod Scenarios
pub mod Extras
pub mod Locust
