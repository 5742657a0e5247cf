-- ===== src/Parser/Sound.antt =====
-- What holds of the parser's state: its context is valid and the pointers it keeps are instructions of it.
pub mod Steps
pub mod Attribute
pub mod Facts
pub mod Typed
pub mod Definition
pub mod Operation
pub mod Line
pub mod Statement
use mathlib.Core.Path.{subst}
use souper.Prelude.{
  refl, ℕ, ◌+◌, ◌<◌, ◌≤◌, ◌≡◌, Bool, true, false, List, [], ◌∷◌, ◌++◌, All, Option, none, some,
  arith, if◌then◌else◌,
}
use souper.Inst.Context.{Library, Context}
use souper.Inst.Context.Valid.{IsValid}
use souper.Llvm.ApInt.{ApInt}
use souper.Parser.Message.{Checked, ok, err, ◌>>=◌, ◌>>◌, reject, map_err, ok_inj, err-ne-ok}
use souper.Parser.Statement.{is_null, is_rhs_mode, find_index}
use souper.Parser.Greatest.{greatest}
use souper.Parser.State.{
  Input, State, Stop, ReplacementKind, parse_lhs, parse_rhs, parse_both, Names, InstMapping,
  BlockPcMapping, ParsedReplacement,
}

-- A property of what a step returns, if it returns.
pub record Gives {E T : Type 0} (P : T → Type 0) (m : Checked E T) : Type 0 where
  pub holds : (t : T) → m ≡ ok t → P t

pub Gives-ok : {E T : Type 0} {P : T → Type 0} {t : T} → P t → Gives {E = E} P (ok t)
Gives-ok {P = P} h = record { holds = λ u e. subst P (ok_inj _ _ e) h }

pub Gives-err : {E T : Type 0} {P : T → Type 0} {e : E} → Gives P (err e)
Gives-err = record { holds = λ t h. absurd (err-ne-ok h) }

pub Gives_weaken :
    {E T : Type 0} {P Q : T → Type 0} {m : Checked E T}
    → ((t : T) → P t → Q t)
    → Gives P m
    → Gives Q m
Gives_weaken h g = record { holds = λ t e. h t (g.holds t e) }

pub Gives->>= :
    {E S T : Type 0} {P : S → Type 0} {Q : T → Type 0} (m : Checked E S) (f : S → Checked E T)
    → Gives P m
    → ((s : S) → P s → Gives Q (f s))
    → Gives Q (m >>= f)
Gives->>= (ok s) f h k = k s (h.holds s refl)
Gives->>= (err e) f h k = Gives-err

pub Gives-reject :
    {E T : Type 0} {Q : T → Type 0} (b : Bool) (e : E) (k : Unit {0} → Checked E T)
    → Gives Q (k tt)
    → Gives Q (reject b e >>= k)
Gives-reject true e k h = Gives-err
Gives-reject false e k h = h

pub Gives-map_err :
    {E F T : Type 0} {Q : T → Type 0} (f : E → F) (m : Checked E T)
    → Gives Q m
    → Gives Q (map_err f m)
Gives-map_err f (ok t) h = Gives-ok (h.holds t refl)
Gives-map_err f (err e) h = Gives-err

-- After a test that was passed.
pub Gives-passed :
    {E T : Type 0} {Q : T → Type 0} (b : Bool) (e : E) (k : Unit {0} → Checked E T)
    → (b ≡ false → Gives Q (k tt))
    → Gives Q (reject b e >>= k)
Gives-passed true e k h = Gives-err
Gives-passed false e k h = h refl

pub Gives-both :
    {E T : Type 0} {P Q : T → Type 0} {m : Checked E T}
    → Gives P m
    → Gives Q m
    → Gives (λ t. P t × Q t) m
Gives-both h k = record { holds = λ t e. (h.holds t e, k.holds t e) }

-- A test that leads to one of two steps.
pub Gives-case :
    {E T : Type 0} {Q : T → Type 0} (b : Bool) {x y : Checked E T}
    → (b ≡ true → Gives Q x)
    → Gives Q y
    → Gives Q (elim b [ true ↦ x | false ↦ y ])
Gives-case true h k = h refl
Gives-case false h k = k

pub Gives-elim :
    {E T : Type 0} {Q : T → Type 0} (b : Bool) {x y : Checked E T}
    → Gives Q x
    → Gives Q y
    → Gives Q (elim b [ true ↦ x | false ↦ y ])
Gives-elim true h k = h
Gives-elim false h k = k

-- A test written with `if`.
pub Gives-if :
    {E T : Type 0} {Q : T → Type 0} (b : Bool) {x y : Checked E T}
    → Gives Q x
    → Gives Q y
    → Gives Q (if b then x else y)
Gives-if true h k = h
Gives-if false h k = k

-- Nothing is claimed of a result.
pub Gives-any : {E T : Type 0} (m : Checked E T) → Gives (λ t. Unit) m
Gives-any (ok t) = Gives-ok tt
Gives-any (err e) = Gives-err

pub Gives-option :
    {E S T : Type 0} {Q : T → Type 0} (o : Option S) (e : E) (f : S → Checked E T)
    → ((s : S) → o ≡ some s → Gives Q (f s))
    → Gives Q (elim o [ none ↦ err e | some s ↦ f s ])
Gives-option none e f h = Gives-err
Gives-option (some s) e f h = h s refl

-- Something that must be there.
pub Gives-some :
    {E S : Type 0} (o : Option S) (e : E)
    → Gives (λ s. o ≡ some s) (elim o [ none ↦ err e | some s ↦ ok s ])
Gives-some none e = Gives-err
Gives-some (some s) e = Gives-ok refl

pub All-weaken {ℓ} :
    {T : Type ℓ} (P Q : T → Type 0) (xs : List T) → ((x : T) → P x → Q x) → All P xs → All Q xs
All-weaken P Q [] h a = tt
All-weaken P Q (x ∷ xs) h a = (h x a.0, All-weaken P Q xs h a.1)

pub All-snoc {ℓ} :
    {T : Type ℓ} (P : T → Type 0) (xs : List T) (x : T) → All P xs → P x → All P (xs ++ x ∷ [])
All-snoc P [] x a p = (p, tt)
All-snoc P (y ∷ ys) x a p = (a.0, All-snoc P ys x a.1 p)

-- A pointer that is null or below a bound.
abbrev pub Below : ℕ → Option ℕ → Type 0
Below n none = Unit
Below n (some p) = p < n

abbrev pub MappingBelow : ℕ → InstMapping → Type 0
MappingBelow n m = Below n m.lhs × Below n m.rhs

abbrev pub NamesBelow : ℕ → Names → Type 0
NamesBelow n c = All (λ (e : List ℕ × ℕ). e.1 < n) c.insts

abbrev pub ReplacementBelow : ℕ → ParsedReplacement → Type 0
ReplacementBelow n r =
    MappingBelow n r.mapping
    × All (MappingBelow n) r.pcs
    × All (λ (b : BlockPcMapping). MappingBelow n b.pc) r.bpcs

-- What the source asserts of the mappings that it returns, in each mode.
abbrev pub Asserted : ReplacementKind → InstMapping → Type 0
Asserted parse_both m = (is_null m.lhs ≡ false) × (is_null m.rhs ≡ false)
Asserted parse_lhs m = (is_null m.lhs ≡ false) × (is_null m.rhs ≡ true)
Asserted parse_rhs m = (is_null m.lhs ≡ true) × (is_null m.rhs ≡ false)

abbrev pub given_names : Input → List Names
given_names inp = elim inp.rcs_in [ none ↦ [] | some rcs ↦ rcs ]

Below-mono : (m n : ℕ) (o : Option ℕ) → m ≤ n → Below m o → Below n o
Below-mono m n none h b = tt
Below-mono m n (some p) h b = omega (arith, h, b)

MappingBelow-mono : (m n : ℕ) (x : InstMapping) → m ≤ n → MappingBelow m x → MappingBelow n x
MappingBelow-mono m n x h b = (Below-mono m n x.lhs h b.0, Below-mono m n x.rhs h b.1)

NamesBelow-mono : (m n : ℕ) (c : Names) → m ≤ n → NamesBelow m c → NamesBelow n c
NamesBelow-mono m n c h = All-weaken _ _ c.insts (λ e k. omega (arith, h, k))

ReplacementBelow-mono :
    (m n : ℕ) (r : ParsedReplacement) → m ≤ n → ReplacementBelow m r → ReplacementBelow n r
ReplacementBelow-mono m n r h b = (
  MappingBelow-mono m n r.mapping h b.0,
  All-weaken _ _ r.pcs (λ x. MappingBelow-mono m n x h) b.1,
  All-weaken _ _ r.bpcs (λ x. MappingBelow-mono m n x.pc h) b.2,
)

module _ (A : ApInt) (lib : Library A) (inp : Input) where
  open A use {Num}

  pub record Sound (s : State Num) : Type 0 where
    pub valid : IsValid A s.ic
    pub names : NamesBelow s.ic.next s.context
    pub given : All (NamesBelow s.ic.next) (given_names inp)
    pub reps : All (ReplacementBelow s.ic.next) s.reps
    pub pcs : All (MappingBelow s.ic.next) s.pcs
    pub bpcs : All (λ (b : BlockPcMapping). MappingBelow s.ic.next b.pc) s.bpcs
    pub lhs : Below s.ic.next s.lhs
    pub asserted : All (λ (r : ParsedReplacement). Asserted inp.rk r.mapping) s.reps
    pub no_lhs : is_rhs_mode inp.rk ≡ true → is_null s.lhs ≡ true
    pub largest : (a : ℕ) → find_index s.block_pc_idx_map a ≡ greatest s.bpcs a

  -- The context may grow.
  pub Sound-grows :
      (s : State Num) (c : Context Num)
      → Sound s
      → IsValid A c
      → s.ic.next ≤ c.next
      → Sound (record s { ic = c })
  Sound-grows s c h v le = record {
    valid = v;
    names = NamesBelow-mono s.ic.next c.next s.context le h.names;
    given = All-weaken _ _ (given_names inp) (λ x. NamesBelow-mono s.ic.next c.next x le) h.given;
    reps = All-weaken _ _ s.reps (λ x. ReplacementBelow-mono s.ic.next c.next x le) h.reps;
    pcs = All-weaken _ _ s.pcs (λ x. MappingBelow-mono s.ic.next c.next x le) h.pcs;
    bpcs = All-weaken _ _ s.bpcs (λ x. MappingBelow-mono s.ic.next c.next x.pc le) h.bpcs;
    lhs = Below-mono s.ic.next c.next s.lhs le h.lhs;
    asserted = h.asserted;
    no_lhs = h.no_lhs;
    largest = h.largest;
  }
