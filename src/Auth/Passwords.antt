-- ===== src/Auth/Passwords.antt =====
-- was/app/security.py: `hash_password`, `verify_password`. The derivation of a key from a password,
-- a salt and a count in the text of the store is hashlib's; none stands for its ValueError.
use soltrace.Base.{
  ap, ◌∙◌, ℕ, ◌==◌, ◌≡◌, refl, Bool, true, false, Option, none, some, List, [], ◌∷◌, ◌++◌, All,
  if◌then◌else◌,
}
use soltrace.Auth.Text.{Text, text_eq, text_eq_refl, split_at}
use soltrace.Auth.Text.Split.{split_at-part, split_at-last}

abbrev pub dollar : ℕ
dollar = 36

-- `pbkdf2_sha256` and `240000`
abbrev pub algo : Text
algo = 112 ∷ 98 ∷ 107 ∷ 100 ∷ 102 ∷ 50 ∷ 95 ∷ 115 ∷ 104 ∷ 97 ∷ 50 ∷ 53 ∷ 54 ∷ []

abbrev pub iterations : Text
iterations = 50 ∷ 52 ∷ 48 ∷ 48 ∷ 48 ∷ 48 ∷ []

abbrev pub is_digest : Option Text → Text → Bool
is_digest none hash = false
is_digest (some dk) hash = text_eq dk hash

module _ (pbkdf2 : (password salt iters : Text) → Option Text) where
  -- `hash_password`, with the salt that `os.urandom` gave, in hex
  unfoldable pub hash_password : (password salt : Text) → Option Text
  hash_password password salt = elim (pbkdf2 password salt iterations) [
    | none ↦ none
    | some dk ↦ some (algo ++ (dollar ∷ iterations) ++ (dollar ∷ salt) ++ (dollar ∷ dk))
  ]

  abbrev pub verify_parts : Text → List Text → Bool
  verify_parts password (a ∷ iters ∷ salt ∷ hash ∷ []) =
      if text_eq a algo then is_digest (pbkdf2 password salt iters) hash else false
  verify_parts password _ = false

  unfoldable pub verify_password : Text → Text → Bool
  verify_password password stored = verify_parts password (split_at (λ c. c == dollar) stored)

abbrev pub IsClean : Text → Type 0
IsClean s = All (λ c. (c == dollar) ≡ false) s

algo-IsClean : IsClean algo
algo-IsClean = (
  refl,
  (
    refl,
    (refl, (refl, (refl, (refl, (refl, (refl, (refl, (refl, (refl, (refl, (refl, tt))))))))))),
  ),
)

iterations-IsClean : IsClean iterations
iterations-IsClean = (refl, (refl, (refl, (refl, (refl, (refl, tt))))))

-- What `hash_password` stores is verified by the password, if the key can be derived and neither
-- salt nor key has a dollar sign.
pub verify_password-hash_password :
    (pbkdf2 : (password salt iters : Text) → Option Text) (password salt dk : Text)
    → pbkdf2 password salt iterations ≡ some dk
    → IsClean salt
    → IsClean dk
    → (stored : Text) × (hash_password pbkdf2 password salt ≡ some stored)
      × (verify_password pbkdf2 password stored ≡ true)
unfolding hash_password verify_password
verify_password-hash_password pbkdf2 password salt dk e hs hd =
    let p : ℕ → Bool = λ c. c == dollar in
    let tail = salt ++ dollar ∷ dk in
    let parts : split_at p (algo ++ (dollar ∷ iterations) ++ (dollar ∷ salt) ++ (dollar ∷ dk))
        ≡ algo ∷ iterations ∷ salt ∷ dk ∷ [] =
      split_at-part p algo (iterations ++ dollar ∷ tail) dollar algo-IsClean refl
      ∙ ap (λ l. algo ∷ l) (split_at-part p iterations tail dollar iterations-IsClean refl)
      ∙ ap (λ l. algo ∷ iterations ∷ l) (split_at-part p salt dk dollar hs refl)
      ∙ ap (λ l. algo ∷ iterations ∷ salt ∷ l) (split_at-last p dk hd) in
    let digest : is_digest (pbkdf2 password salt iterations) dk ≡ true = rw e (text_eq_refl dk) in
    (_, rw (e, hash_password) refl, ap (λ l. verify_parts pbkdf2 password l) parts ∙ digest)
