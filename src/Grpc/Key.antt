-- ===== src/Grpc/Key.antt =====
-- hub/internal/grpcserver/pending.go: the key of a request, `serverID + ":" + requestID`.
use aerodocs.Base.{
  ℕ, ◌≡◌, ◌≢◌, inl, inr, false, ◌∷◌, ◌++◌, Bool-cases, Bytes, text_eq, eq_of_text_eq, Lacks,
  split_unique,
}

abbrev pub colon : ℕ
colon = b':'

unfoldable pub make_key : Bytes → Bytes → Bytes
make_key server request = server ++ colon ∷ request

-- A request of one server never has the key of another server's, if server ids hold no colon.
pub make_key_injective :
    (s s' r r' : Bytes)
    → Lacks colon s
    → Lacks colon s'
    → make_key s r ≡ make_key s' r'
    → (s ≡ s') × (r ≡ r')
unfolding make_key
make_key_injective s s' r r' h h' e = split_unique colon s s' r r' h h' e

pub make_key_apart :
    (s s' r r' : Bytes)
    → Lacks colon s
    → Lacks colon s'
    → s ≢ s'
    → text_eq (make_key s r) (make_key s' r') ≡ false
make_key_apart s s' r r' h h' ne = elim (Bool-cases (text_eq (make_key s r) (make_key s' r'))) [
  | inl e ↦ absurd (ne (make_key_injective s s' r r' h h' (eq_of_text_eq _ _ e)).0)
  | inr e ↦ e
]
