-- ===== src/Cooker/Reading.antt =====
-- What `Cooker.status` makes of the values that a cooker sends.
use python_miio.Base.{
  ℕ, zero, suc, ◌≡◌, refl, ap, false, String, List, [], ◌∷◌, some, get_elem?, All, str_eq, arith,
}
use python_miio.Python.Value.{Value, arr, str, cons, nil, of_list, to_list-of_list}
use python_miio.Python.Dict.{Dict, text_eq, lookup, beq_refl}
use python_miio.Python.Result.{ok}
use python_miio.Device.Transport.{Transport, call_with}
use python_miio.Cooker.Status.{
  properties, zipped, data_of, or_null, values_of, status, mode_of, int16_of, int_of, int16_part,
  mode, menu, remaining, duration, hardware_version, firmware_version, favorite,
}

abbrev Differ : List String → Type 0
Differ [] = Unit
Differ (p ∷ names) = All (λ q. str_eq p q ≡ false) names × Differ names

other_name :
    (p q : String) (names : List String) (i : ℕ)
    → All (λ r. str_eq p r ≡ false) names
    → get_elem? names i ≡ some q
    → str_eq p q ≡ false
other_name p q [] i h at = absurd (ground arith)
other_name p q (r ∷ names) zero (h, hs) at = let same : r ≡ q = cc in rw same at h
other_name p q (r ∷ names) (suc i) (h, hs) at = other_name p q names i hs at

data_of-zipped :
    (names : List String) (values : List Value) (i : ℕ) (p : String)
    → Differ names
    → get_elem? names i ≡ some p
    → data_of (zipped names values) p ≡ or_null (get_elem? values i)
unfolding data_of zipped lookup
data_of-zipped [] values i p d at = absurd (ground arith)
data_of-zipped (q ∷ names) [] i p d at = refl
data_of-zipped (q ∷ names) (v ∷ values) zero p d at = let same : q ≡ p = cc in rw (same, beq_refl p)
data_of-zipped (q ∷ names) (v ∷ values) (suc i) p (h, d) at =
    rw (other_name q p names i h at) (data_of-zipped names values i p d at)

properties-Differ : Differ properties
properties-Differ = ground arith

-- The value at a place, and `None` where there is none.
abbrev pub value_at : List Value → ℕ → Value
value_at values i = or_null (get_elem? values i)

-- What stands under each name of a status, and what its attributes read, by the place in the answer.
pub record IsReadByPlace (values : List Value) (d : Dict String Value) : Type 0 where
  pub func : data_of d "func" ≡ value_at values 0
  pub recipe : data_of d "menu" ≡ value_at values 1
  pub cooking_stage : data_of d "stage" ≡ value_at values 2
  pub temp : data_of d "temp" ≡ value_at values 3
  pub t_func : data_of d "t_func" ≡ value_at values 4
  pub t_precook : data_of d "t_precook" ≡ value_at values 5
  pub t_cook : data_of d "t_cook" ≡ value_at values 6
  pub setting : data_of d "setting" ≡ value_at values 7
  pub delay : data_of d "delay" ≡ value_at values 8
  pub version : data_of d "version" ≡ value_at values 9
  pub favored : data_of d "favorite" ≡ value_at values 10
  pub customized : data_of d "custom" ≡ value_at values 11
  pub mode_read : mode d ≡ mode_of (value_at values 0)
  pub menu_read : menu d ≡ int16_of (value_at values 1)
  pub remaining_read : remaining d ≡ int_of (value_at values 4)
  pub duration_read : duration d ≡ int_of (value_at values 6)
  pub hardware_version_read : hardware_version d ≡ int16_part 0 4 (value_at values 9)
  pub firmware_version_read : firmware_version d ≡ int16_part 4 4 (value_at values 9)
  pub favorite_read : favorite d ≡ int16_of (value_at values 10)

module _ (values : List Value) where
  at_place :
      (i : ℕ) (p : String)
      → get_elem? properties i ≡ some p
      → data_of (zipped properties values) p ≡ value_at values i
  at_place i p at = data_of-zipped properties values i p properties-Differ at

  zipped-IsReadByPlace : IsReadByPlace values (zipped properties values)
  unfolding mode menu remaining duration hardware_version firmware_version favorite
  zipped-IsReadByPlace = record {
    func = at_place 0 "func" refl;
    recipe = at_place 1 "menu" refl;
    cooking_stage = at_place 2 "stage" refl;
    temp = at_place 3 "temp" refl;
    t_func = at_place 4 "t_func" refl;
    t_precook = at_place 5 "t_precook" refl;
    t_cook = at_place 6 "t_cook" refl;
    setting = at_place 7 "setting" refl;
    delay = at_place 8 "delay" refl;
    version = at_place 9 "version" refl;
    favored = at_place 10 "favorite" refl;
    customized = at_place 11 "custom" refl;
    mode_read = ap mode_of (at_place 0 "func" refl);
    menu_read = ap int16_of (at_place 1 "menu" refl);
    remaining_read = ap int_of (at_place 4 "t_func" refl);
    duration_read = ap int_of (at_place 6 "t_cook" refl);
    hardware_version_read = ap (int16_part 0 4) (at_place 9 "version" refl);
    firmware_version_read = ap (int16_part 4 4) (at_place 9 "version" refl);
    favorite_read = ap int16_of (at_place 10 "favorite" refl);
  }

module _ {S : Type 0} (t : Transport S) where
  -- A cooker that answers `get_prop` with a list gives a status, and changes nothing behind the answer.
  -- The value at each place stands under its own name, `None` where the list is too short: func, menu,
  -- stage, temp, t_func, t_precook, t_cook, setting, delay, version, favorite and custom are the places
  -- 0 to 11. So the mode is read from place 0, the recipe as hexadecimal from place 1, the remaining
  -- minutes from place 4, the duration from place 6, the two versions from the first and the second
  -- four digits at place 9, and the favorite from place 10, or each raises what reading that value
  -- raises.
  pub status_lem :
      (values : List Value) (s s' : S)
      → call_with t "get_prop" (arr (cons (str "all") nil)) s ≡ (ok (arr (of_list values)), s')
      → (d : Dict String Value) × (status t s ≡ (ok d, s')) × IsReadByPlace values d
  unfolding status values_of
  status_lem values s s' answers =
      (zipped properties values, rw (answers, to_list-of_list values), zipped-IsReadByPlace values)
