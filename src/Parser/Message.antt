-- ===== src/Parser/Message.antt =====
-- lib/Parser/Parser.cpp: the texts of errors, and results that may be one.
use Prim.Native.String.{String}
use souper.Prelude.{ℕ, ◌≡◌, refl, Bool, true, false, List}

-- A piece of a text: one of the source's, `utostr` of a number, or bytes of the input.
pub data Piece : Type 0 where
  str : String → Piece
  dec : ℕ → Piece
  bytes : List ℕ → Piece

abbrev pub Message : Type 0
Message = List Piece

-- A result, or an error and `return false`.
pub data Checked {ℓ} (E : Type 0) (T : Type ℓ) : Type ℓ where
  ok : T → Checked E T
  err : E → Checked E T

infixl 5 ◌>>=◌ ◌>>◌
abbrev pub ◌>>=◌ {ℓ κ} :
    {E : Type 0} {S : Type ℓ} {T : Type κ} → Checked E S → (S → Checked E T) → Checked E T
ok a >>= f = f a
err e >>= f = err e

abbrev pub ◌>>◌ {ℓ} : {E : Type 0} {T : Type ℓ} → Checked E (Unit {0}) → Checked E T → Checked E T
m >> k = m >>= λ _. k

-- `if (bad) { ErrStr = ...; return false; }`
abbrev pub reject : {E : Type 0} → Bool → E → Checked E (Unit {0})
reject true e = err e
reject false e = ok tt

abbrev pub map_err {ℓ} : {E F : Type 0} {T : Type ℓ} → (E → F) → Checked E T → Checked F T
map_err f (ok a) = ok a
map_err f (err e) = err (f e)

-- Inversion of a step that succeeded.
pub >>=-eq-ok {ℓ κ} :
    {E : Type 0} {S : Type ℓ} {T : Type κ} (m : Checked E S) (f : S → Checked E T) {t : T}
    → (m >>= f) ≡ ok t
    → (s : S) × (m ≡ ok s) × (f s ≡ ok t)
>>=-eq-ok (ok s) f h = (s, refl, h)
>>=-eq-ok (err e) f h = cc

pub reject-eq-ok : {E : Type 0} {u : Unit {0}} (b : Bool) (e : E) → reject b e ≡ ok u → b ≡ false
reject-eq-ok true e h = cc
reject-eq-ok false e h = refl

pub ok_inj {ℓ} : {E : Type 0} {T : Type ℓ} (a b : T) → ◌≡◌ {A = Checked E T} (ok a) (ok b) → a ≡ b
ok_inj a b h = cc

pub err-ne-ok {ℓ} :
    {E : Type 0} {T : Type ℓ} {a : T} {e : E} → ¬ ◌≡◌ {A = Checked E T} (err e) (ok a)
err-ne-ok h = cc
