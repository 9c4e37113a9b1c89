-- ===== src/Client/Request.antt =====
-- The running message id, and the request around a command.
use python_miio.Base.{String, Option, none, some, if◌then◌else◌}
use python_miio.Base.Int.{ℤ, pos, ◌+ℤ◌, leb_ℤ}
use python_miio.Python.Value.{
  Value, int, str, arr, obj, nil, Fields, end, field, merge_fields, as_number,
}
use python_miio.Python.Result.{ok, err, type_error}
use python_miio.Python.Action.{Action, ◌>>=◌}
use python_miio.Client.State.{Client}

abbrev add_to : Option ℤ → ℤ → Action Client ℤ
add_to none k c = (err type_error, c)
add_to (some n) k c = (ok (n +ℤ k), record c { id = int (n +ℤ k) })

-- `self.__id += k`, and the sum. What is no number cannot be added to.
unfoldable pub add_id : ℤ → Action Client ℤ
unfolding as_number
add_id k c = add_to (as_number c.id) k c

-- the property `_id`
unfoldable pub next_id : Action Client ℤ
unfolding add_id
next_id = do
  n ← add_id (pos 1)
  λ c. if leb_ℤ (pos 9999) n then (ok (pos 1), record c { id = int (pos 1) }) else (ok n, c)

abbrev params_value : Option Value → Value
params_value none = arr nil
params_value (some v) = v

abbrev extended : Fields → Option Fields → Fields
extended request none = request
extended request (some extra) = merge_fields request extra

-- `_create_request`
unfoldable pub create_request : String → Option Value → Option Fields → Action Client Value
create_request command parameters extra_parameters = do
  n ← next_id
  let request =
      field "id" (int n)
        (field "method" (str command) (field "params" (params_value parameters) end))
  λ c. (ok (obj (extended request extra_parameters)), c)
