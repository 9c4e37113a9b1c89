-- ===== src/Device/Sequence.antt =====
-- A value where Python wants a sequence: `values.extend(v)` and `v[0]`.
use Prim.Native.String.{String}
use python_miio.Base.{List, [], ◌∷◌}
use python_miio.Python.Value.{Value, str, arr, obj, nil, cons, Fields, end, field, to_list}
use python_miio.Python.Result.{Result, ok, err, type_error, index_error, key_error}

abbrev characters : String → List Value
characters String.[] = []
characters (String.◌∷◌ c s) = str (String.◌∷◌ c String.[]) ∷ characters s

abbrev keys : Fields → List Value
keys end = []
keys (field k v fs) = str k ∷ keys fs

-- `list(v)`: the characters of a text, the keys of a dictionary
unfoldable pub iterate : Value → Result (List Value)
unfolding to_list
iterate (arr vs) = ok (to_list vs)
iterate (str s) = ok (characters s)
iterate (obj fs) = ok (keys fs)
iterate _ = err type_error

-- `v[0]`: the keys of a dictionary are texts
unfoldable pub first_item : Value → Result Value
first_item (arr (cons v vs)) = ok v
first_item (arr nil) = err index_error
first_item (str (String.◌∷◌ c s)) = ok (str (String.◌∷◌ c String.[]))
first_item (str String.[]) = err index_error
first_item (obj fs) = err key_error
first_item _ = err type_error
