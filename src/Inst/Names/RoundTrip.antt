-- ===== src/Inst/Names/RoundTrip.antt =====
-- What `getKind` reads back of what `getKindName` prints.
use Prim.Native.String.{String}
use mathlib.Core.Option
use text.Mathlib.Text.{◌==◌ as str_eq}
use text.Mathlib.TextEquality.{eq_iff}
use souper.Prelude.{Option, none, some, List, [], ◌∷◌, ◌≡◌, refl, ap}
use souper.Prelude.{◌⊎◌, inl, inr, Bool-cases, All, ◌∙◌}
use souper.Inst.Kind.{Kind}
use souper.Inst.Names.{get_kind_name, string_switch, kind_cases, get_kind}

-- The kinds whose spelling is not a case of `getKind`: constants are written as numbers, and the
-- six overflow flags share the spelling "o".
abbrev pub read_back : Kind → Option Kind
read_back Kind.no_kind = none
read_back Kind.const = some Kind.no_kind
read_back Kind.untyped_const = some Kind.no_kind
read_back Kind.sadd_o = some Kind.no_kind
read_back Kind.uadd_o = some Kind.no_kind
read_back Kind.ssub_o = some Kind.no_kind
read_back Kind.usub_o = some Kind.no_kind
read_back Kind.smul_o = some Kind.no_kind
read_back Kind.umul_o = some Kind.no_kind
read_back k = some k

-- Reading the printed name of a kind gives the kind back, except for constants and the six overflow
-- flags, whose names read as `None`; `None` itself has no name.
pub get_kind-get_kind_name : (k : Kind) → Option.map get_kind (get_kind_name k) ≡ read_back k
unfolding get_kind get_kind_name string_switch kind_cases
get_kind-get_kind_name Kind.no_kind = refl
get_kind-get_kind_name _ = refl

-- An entry of the table whose text is the printed name of its kind.
abbrev IsNamed : String × Kind → Type 0
IsNamed (s, k) = get_kind_name k ≡ some s

string_switch-IsNamed :
    (cases : List (String × Kind)) (d : Kind) (s : String)
    → All IsNamed cases
    → (string_switch (λ t. str_eq t s) cases d ≡ d)
      ⊎ (get_kind_name (string_switch (λ t. str_eq t s) cases d) ≡ some s)
unfolding string_switch
string_switch-IsNamed [] d s h = inl refl
string_switch-IsNamed ((t, k) ∷ cases) d s h = elim (Bool-cases (str_eq t s)) [
  | inl same ↦ rw same (inr (h.0 ∙ ap some ((eq_iff t s).0 same)))
  | inr differ ↦ rw differ (string_switch-IsNamed cases d s h.1)
]

kind_cases-IsNamed : All IsNamed kind_cases
unfolding kind_cases get_kind_name
kind_cases-IsNamed = (
  refl,
  (
    refl,
    (
      refl,
      (
        refl,
        (
          refl,
          (
            refl,
            (
              refl,
              (
                refl,
                (
                  refl,
                  (
                    refl,
                    (
                      refl,
                      (
                        refl,
                        (
                          refl,
                          (
                            refl,
                            (
                              refl,
                              (
                                refl,
                                (
                                  refl,
                                  (
                                    refl,
                                    (
                                      refl,
                                      (
                                        refl,
                                        (
                                          refl,
                                          (
                                            refl,
                                            (
                                              refl,
                                              (
                                                refl,
                                                (
                                                  refl,
                                                  (
                                                    refl,
                                                    (
                                                      refl,
                                                      (
                                                        refl,
                                                        (
                                                          refl,
                                                          (
                                                            refl,
                                                            (
                                                            refl,
                                                            (
                                                            refl,
                                                            (
                                                            refl,
                                                            (
                                                            refl,
                                                            (
                                                            refl,
                                                            (
                                                            refl,
                                                            (
                                                            refl,
                                                            (
                                                            refl,
                                                            (
                                                            refl,
                                                            (
                                                            refl,
                                                            (
                                                            refl,
                                                            (
                                                            refl,
                                                            (
                                                            refl,
                                                            (
                                                            refl,
                                                            (
                                                            refl,
                                                            (
                                                            refl,
                                                            (
                                                            refl,
                                                            (
                                                            refl,
                                                            (
                                                            refl,
                                                            (
                                                            refl,
                                                            (
                                                            refl,
                                                            (
                                                            refl,
                                                            (
                                                            refl,
                                                            (
                                                            refl,
                                                            (
                                                            refl,
                                                            (
                                                            refl,
                                                            (
                                                            refl,
                                                            (
                                                            refl,
                                                            (
                                                            refl,
                                                            (refl, (refl, (refl, (refl, tt)))),
                                                            ),
                                                            ),
                                                            ),
                                                            ),
                                                            ),
                                                            ),
                                                            ),
                                                            ),
                                                            ),
                                                            ),
                                                            ),
                                                            ),
                                                            ),
                                                            ),
                                                            ),
                                                            ),
                                                            ),
                                                            ),
                                                            ),
                                                            ),
                                                            ),
                                                            ),
                                                            ),
                                                            ),
                                                            ),
                                                            ),
                                                            ),
                                                            ),
                                                            ),
                                                          ),
                                                        ),
                                                      ),
                                                    ),
                                                  ),
                                                ),
                                              ),
                                            ),
                                          ),
                                        ),
                                      ),
                                    ),
                                  ),
                                ),
                              ),
                            ),
                          ),
                        ),
                      ),
                    ),
                  ),
                ),
              ),
            ),
          ),
        ),
      ),
    ),
  ),
)

-- `getKind` answers with `None` or with a kind that is printed as the text it was given.
pub get_kind_name-get_kind :
    (s : String) → (get_kind s ≡ Kind.no_kind) ⊎ (get_kind_name (get_kind s) ≡ some s)
unfolding get_kind
get_kind_name-get_kind s = string_switch-IsNamed kind_cases Kind.no_kind s kind_cases-IsNamed
