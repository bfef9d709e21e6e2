-- ===== src/Store/Dpapi.antt =====
-- Encryption at rest (src/profile_store.rs): the calls of DPAPI, which answer `none` for a failure.
-- A length is cut to 32 bits for them.
use phobos_wg_client.Base.{
  ◌≤◌, ◌<◌, ◌%◌, ◌^◌, [], ◌∷◌, Option, none, some, ◌≡◌, refl, sym, ap, ◌∙◌, subst, if◌then◌else◌,
  Bytes, length, take, take_all, arith,
}
use phobos_wg_client.Base.Result.{Result, ok, err}
use phobos_wg_client.Text.{is_nil}

pub data DpapiError : Type 0 where
  not_encrypted : DpapiError
  not_decrypted : DpapiError

-- The bytes that a call sees.
abbrev pub blob : Bytes → Bytes
blob b = take (length b % 2 ^ 32) b

abbrev pub or_error : DpapiError → Option Bytes → Result DpapiError Bytes
or_error e none = err e
or_error e (some b) = ok b

unfoldable pub dpapi_protect : (Bytes → Option Bytes) → Bytes → Result DpapiError Bytes
dpapi_protect call plaintext =
    if is_nil plaintext then ok [] else or_error not_encrypted (call (blob plaintext))

unfoldable pub dpapi_unprotect : (Bytes → Option Bytes) → Bytes → Result DpapiError Bytes
dpapi_unprotect call ciphertext =
    if is_nil ciphertext then ok [] else or_error not_decrypted (call (blob ciphertext))

-- DPAPI of one user: what it encrypts it decrypts, and a ciphertext is not empty and below 4 GiB.
pub record IsDpapi (protect unprotect : Bytes → Option Bytes) : Type 0 where
  pub inverse : (b c : Bytes) → protect b ≡ some c → unprotect c ≡ some b
  pub sized : (b c : Bytes) → protect b ≡ some c → (1 ≤ length c) × (length c < 2 ^ 32)

blob-short : (b : Bytes) → length b < 2 ^ 32 → blob b ≡ b
blob-short b h = take_all (length b % 2 ^ 32) b (omega arith)

module _ (protect unprotect : Bytes → Option Bytes) (d : IsDpapi protect unprotect) where
  unprotect_nonempty :
      (c b : Bytes)
      → (1 ≤ length c) × (length c < 2 ^ 32)
      → unprotect c ≡ some b
      → dpapi_unprotect unprotect c ≡ ok b
  unfolding dpapi_unprotect
  unprotect_nonempty [] b s e = absurd (omega (arith, s.0))
  unprotect_nonempty (x ∷ c) b s e =
      ap (or_error not_decrypted) (ap unprotect (blob-short (x ∷ c) s.1) ∙ e)

  protected_by : (b c : Bytes) → or_error not_encrypted (protect b) ≡ ok c → protect b ≡ some c
  protected_by b c e = go (protect b) e
    where
      go : (o : Option Bytes) → or_error not_encrypted o ≡ ok c → o ≡ some c
      go none h = absurd (cc)
      go (some x) h = (let q : x ≡ c = cc in ap some q)

  -- A profile of less than 4 GiB that is encrypted is decrypted to the same bytes.
  pub dpapi_unprotect-protect :
      (b c : Bytes)
      → length b < 2 ^ 32
      → dpapi_protect protect b ≡ ok c
      → dpapi_unprotect unprotect c ≡ ok b
  unfolding dpapi_protect dpapi_unprotect
  dpapi_unprotect-protect [] c h e =
      let q : [] ≡ c = cc in subst (λ x. dpapi_unprotect unprotect x ≡ ok []) q refl
  dpapi_unprotect-protect (x ∷ b) c h e =
      let p =
        protected_by (x ∷ b) c
          (ap (λ y. or_error not_encrypted (protect y)) (sym (blob-short (x ∷ b) h)) ∙ e) in
      unprotect_nonempty c (x ∷ b) (d.sized (x ∷ b) c p) (d.inverse (x ∷ b) c p)
