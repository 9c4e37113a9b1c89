-- ===== src/Protocol/BuildErrors.antt =====
-- The exceptions of `Message.build`.
use python_miio.Base.{ℕ, ◌^◌, ◌≡◌, ◌⊎◌, inl, inr, length, arith, ==_iff, ◌==◌, ltb, Bool-cases}
use python_miio.Python.Value.{Value}
use python_miio.Python.Result.{Error, err, value_error, construct_error, >>=-errors}
use python_miio.Protocol.Backend.{Bytes, Backend, BackendLaws}
use python_miio.Protocol.Crypt.{encrypt}
use python_miio.Protocol.Payload.{encode_payload}
use python_miio.Protocol.RoundTrip.{encrypt_lem}
use python_miio.Protocol.Message.{
  Header, magic, build, build_header, build_checksum, exactly, checksum_field_bytes,
}

abbrev pub IsBuildError : Error → Type 0
IsBuildError e = (e ≡ value_error) ⊎ (e ≡ construct_error)

abbrev IsConstruct : Error → Type 0
IsConstruct e = e ≡ construct_error

exactly-errors : (n : ℕ) (s : Bytes) (e : Error) → exactly n s ≡ err e → e ≡ construct_error
unfolding exactly
exactly-errors n s e h = ground arith

module _ (b : Backend) (laws : BackendLaws b) where
  int16-errors : (n : ℕ) (e : Error) → b.build_int16ub n ≡ err e → e ≡ construct_error
  int16-errors n e h = elim (Bool-cases (ltb n (2 ^ 16))) [
    | inl fits ↦ ground (arith, laws.build_int16ub_fits n)
    | inr over ↦ ground (arith, laws.build_int16ub_overflow n)
  ]

  int32-errors : (n : ℕ) (e : Error) → b.build_int32ub n ≡ err e → e ≡ construct_error
  int32-errors n e h = elim (Bool-cases (ltb n (2 ^ 32))) [
    | inl fits ↦ ground (arith, laws.build_int32ub_fits n)
    | inr over ↦ ground (arith, laws.build_int32ub_overflow n)
  ]

  encrypt-errors : (text token : Bytes) (e : Error) → encrypt b text token ≡ err e → e ≡ value_error
  encrypt-errors text token e h = elim (Bool-cases (length token == 16)) [
    | inl sixteen ↦
        (let (c, done, _, _, _) =
            encrypt_lem b laws token ((==_iff (length token) 16).0 sixteen) text in
          ground (arith, done))
    | inr other ↦ unfold encrypt in ground arith
  ]

  build_header-errors : (h : Header) (e : Error) → build_header b h ≡ err e → e ≡ construct_error
  unfolding build_header
  build_header-errors h = >>=-errors IsConstruct _ _ (int16-errors magic) λ _.
      >>=-errors IsConstruct _ _ (int16-errors h.size) λ _.
        >>=-errors IsConstruct _ _ (int32-errors h.unknown) λ _.
          >>=-errors IsConstruct _ _ (exactly-errors 4 h.device_id)
            λ _. >>=-errors IsConstruct _ _ (int32-errors h.ts) λ _ e p. absurd (cc)

  build_checksum-errors :
      (size : ℕ) (header token payload : Bytes) (e : Error)
      → build_checksum b size header token payload ≡ err e
      → e ≡ construct_error
  unfolding build_checksum
  build_checksum-errors size header token payload e p =
      ground (arith, exactly-errors 16 (b.md5 (checksum_field_bytes header token payload)) e)

  -- `build` raises `ValueError` or an error of `construct`, and nothing else.
  pub build_errors :
      (v : Value) (device_id : Bytes) (ts : ℕ) (token : Bytes) (e : Error)
      → build b v device_id ts token ≡ err e
      → IsBuildError e
  unfolding build encode_payload
  build_errors v device_id ts token e h =
      grind (arith, encrypt-errors, build_header-errors, build_checksum-errors)
