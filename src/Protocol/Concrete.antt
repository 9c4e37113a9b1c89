-- ===== src/Protocol/Concrete.antt =====
-- A backend of concrete functions, which shows that the laws can be met: a sum for the digest, a
-- cipher that keeps the text, the padding of PKCS7, and the integers of `construct`.
use python_miio.Base.{
  ℕ, zero, suc, ◌+◌, ◌-◌, ◌*◌, ◌%◌, ◌^◌, ◌<◌, ◌≡◌, refl, ap, [], ◌∷◌, ◌++◌, arith, length, take,
  replicate, ltb, length-append, length-replicate, take-append_left, if◌then◌else◌,
}
use python_miio.Python.Value.{Value}
use python_miio.Python.Result.{Result, ok, err, construct_error}
use python_miio.Protocol.Backend.{Bytes, Backend, BackendLaws, big_endian}

abbrev sum : Bytes → ℕ
sum [] = 0
sum (c ∷ s) = c + sum s

last : Bytes → ℕ
last [] = 0
last (c ∷ []) = c
last (c ∷ d ∷ s) = last (d ∷ s)

pad : Bytes → Bytes
pad s = let n : ℕ = 16 - length s % 16 in s ++ replicate n n

unpad : Bytes → Result Bytes
unfolding last
unpad s = ok (take (length s - last s) s)

-- a number from its bytes, the highest first
value_of : ℕ → Bytes → ℕ
value_of n [] = n
value_of n (c ∷ s) = value_of (n * 256 + c) s

abbrev build_int : ℕ → ℕ → Result Bytes
build_int k n = if ltb n (256 ^ k) then ok (big_endian k n) else err construct_error

-- The texts of values, and their values, are left open.
unfoldable pub backend : (Value → Bytes) → (Bytes → Result Value) → Backend
unfolding pad unpad value_of big_endian
backend dumps loads = record {
  md5 = λ s. replicate 16 (sum s % 256);
  aes_cbc_encrypt = λ key iv s. ok s;
  aes_cbc_decrypt = λ key iv s. ok s;
  pkcs7_pad = pad;
  pkcs7_unpad = unpad;
  json_dumps = dumps;
  json_loads = loads;
  build_int16ub = build_int 2;
  parse_int16ub = value_of 0;
  build_int32ub = build_int 4;
  parse_int32ub = value_of 0;
}

length-pad : (s : Bytes) → length (pad s) ≡ length s + (16 - length s % 16)
unfolding pad
length-pad s =
    let n : ℕ = 16 - length s % 16 in
    omega (arith, length-append s (replicate n n), length-replicate n n)

last-append : (s : Bytes) (n k : ℕ) → last (s ++ replicate (suc k) n) ≡ n
unfolding last
last-append [] n zero = refl
last-append [] n (suc k) = last-append [] n k
last-append (c ∷ []) n k = last-append [] n k
last-append (c ∷ d ∷ s) n k = last-append (d ∷ s) n k

unpad_lem : (s : Bytes) (n : ℕ) → 0 < n → unpad (s ++ replicate n n) ≡ ok s
unfolding unpad
unpad_lem s zero h = absurd (omega arith)
unpad_lem s (suc k) h =
    let whole : Bytes = s ++ replicate (suc k) (suc k) in
    let cut : length whole - last whole ≡ length s = omega (
      arith,
      last-append s (suc k) k,
      length-append s (replicate (suc k) (suc k)),
      length-replicate (suc k) (suc k),
    ) in
    ap ok (rw cut (take-append_left (length s) s (replicate (suc k) (suc k)) refl))

unpad-pad : (s : Bytes) → unpad (pad s) ≡ ok s
unfolding pad
unpad-pad s = unpad_lem s (16 - length s % 16) (omega arith)

pub backend_laws :
    (dumps : Value → Bytes) (loads : Bytes → Result Value) → BackendLaws (backend dumps loads)
unfolding backend
backend_laws dumps loads = record {
  length-md5 = λ x. refl;
  encrypt_blocks = λ key iv text _ _ _. (text, refl, refl, refl);
  pad_blocks = λ x. omega (arith, length-pad x);
  pad_grows = λ x. omega (arith, length-pad x);
  pad_bounded = λ x. omega (arith, length-pad x);
  unpad-pad = unpad-pad;
  build_int16ub_fits = λ n h. ground arith;
  build_int16ub_overflow = λ n h. ground arith;
  parse_int16ub_lem = λ n h. omega arith;
  build_int32ub_fits = λ n h. ground arith;
  build_int32ub_overflow = λ n h. ground arith;
  parse_int32ub_lem = λ n h. omega arith;
}
