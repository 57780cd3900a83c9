-- ===== src/Variables/CsvReader/Examples.antt =====
-- The theorems on the reader at a concrete instance.
use grizzly.Common.{◌≡◌, refl, true, false, List, [], ◌∷◌, some, none, err, list_eq, nat_eq, arith}
use grizzly.Common.Dict.{lookup}
use grizzly.Common.Text.{Text, codes, occurs, rsplit_once, rindex?, index?, starts_with}
use grizzly.Common.Text.Laws.{Lacks}
use grizzly.Exceptions.{value_error}
use grizzly.Variables.Queue.{Settings}
use grizzly.Variables.CsvReader.{Row, CsvReader, name_and_column, get_item}
use grizzly.Variables.CsvReader.Reading.{Serves, reads, reads-in_order, get_item_missing_column}

abbrev users : Text
users = codes "users"

abbrev first_user : Row
first_user = (codes "name", codes "alice") ∷ []

abbrev second_user : Row
second_user = (codes "name", codes "bob") ∷ []

abbrev two_users : List Row
two_users = first_user ∷ second_user ∷ []

abbrev once : Settings
once = record { repeat = false; random = false }

abbrev again : Settings
again = record { repeat = true; random = false }

abbrev reader : Settings → CsvReader
reader settings = record {
  values = (users, some []) ∷ [];
  rows = (users, two_users) ∷ [];
  settings = (users, settings) ∷ [];
}

reader-Serves : (settings : Settings) → Serves (reader settings) users settings two_users
unfolding lookup
reader-Serves settings = record { setting = refl; rows = refl }

users-Lacks : Lacks b'.' users
users-Lacks = (omega arith, (omega arith, (omega arith, (omega arith, (omega arith, tt)))))

users_email : name_and_column (codes "users.email") ≡ (users, some (codes "email"))
unfolding occurs rsplit_once rindex? index? starts_with
users_email = refl

no_email : lookup (codes "email") first_user ≡ none
unfolding lookup
no_email = refl

reads-in_order_example :
    ((reads (λ n. 0) users 5 (reader once)).0 ≡ two_users)
    × Serves (reads (λ n. 0) users 5 (reader once)).1 users once []
reads-in_order_example =
    reads-in_order (λ n. 0) users 5 two_users (reader once) users-Lacks (omega arith)
      (reader-Serves once)

get_item_missing_column_example :
    ((get_item (λ n. 0) (codes "users.email") (reader again)).0 ≡ err value_error)
    × (lookup users (get_item (λ n. 0) (codes "users.email") (reader again)).1.rows
        ≡ some (first_user ∷ second_user ∷ first_user ∷ []))
get_item_missing_column_example =
    get_item_missing_column (λ n. 0) (codes "users.email") users (codes "email") true first_user
      (second_user ∷ []) (reader again) users_email no_email (reader-Serves again)
