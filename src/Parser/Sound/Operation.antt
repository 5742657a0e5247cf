-- ===== src/Parser/Sound/Operation.antt =====
-- The lines that define an instruction by a kind and operands keep the parser's state sound.
use souper.Prelude.{
  ℕ, ◌<◌, ◌≤◌, refl, Bool, true, false, not, ◌&&◌, ◌==◌, if◌then◌else◌, List, [], ◌∷◌, Option, none,
  some, arith,
}
use souper.Inst.Kind.{Kind}
use souper.Inst.Graph.{Block}
use souper.Inst.Context.{Library, Context, get_inst_all}
use souper.Inst.Context.Laws.{LibraryLaws}
use souper.Inst.Context.Valid.{IsValid, create_hole-Adds, get_phi-Adds, get_inst-Adds}
use souper.Llvm.ApInt.{ApInt, BitLaws}
use souper.Parser.Token.{ident, equals, TokenPos}
use souper.Parser.TypeCheck.{width_of, at, type_check_phi}
use souper.Parser.InstCheck.{type_check_inst}
use souper.Parser.State.{Input, State, undefined, find_name, kind_of, token_text, is_tok, has_text}
use souper.Parser.Statement.{is_null, find_index}
use souper.Parser.Definition.{
  insert_all, overflow_parts, make_inst, check_and_make, check_and_make_phi, define_inst, parse_phi,
  parse_operation, parse_hole, parse_kind, is_var, is_no_kind, parse_right_side, parse_definition,
}
use souper.Parser.Sound.{
  Gives, Gives->>=, Gives-reject, Gives-option, Gives-map_err, Gives-ok, Gives-err, Gives-elim,
  Sound, Sound-grows, All-weaken,
}
use souper.Parser.Sound.Steps.{consume_token-Sound, set_fields-Sound}
use souper.Parser.Sound.Typed.{type_check_inst-Operands, type_check_phi-Operands, Operands}
use souper.Parser.Sound.Definition.{
  set_inst-Sound, parse_block-Sound, parse_var-Sound, parse_phi_block-Sound, parse_ops-Sound,
}

module _ (A : ApInt) (lib : Library A) (laws : LibraryLaws A lib) (bits : BitLaws A)
    (inp : Input) where
  open A use {Num, get_all_ones_value}

  -- A pointer of a valid context, which has `n` instructions at least.
  abbrev Made : ℕ → ℕ × Context Num → Type 0
  Made n r = IsValid A r.1 × (n ≤ r.1.next) × (r.0 < r.1.next)

  make_inst-Made :
      (n : ℕ) (k : Kind) (w : ℕ) (ops : List ℕ) (c : Context Num)
      → Operands A lib laws bits n (ops, c)
      → Made n (make_inst A lib k w ops c)
  unfolding make_inst
  make_inst-Made n k w ops c h = made (overflow_parts k)
    where
      pair :
          (parts : Kind × Kind)
          → Made n (
              let v = width_of A lib c (at A lib ops 0) in
              let a = get_inst_all A lib parts.0 v ops false c in
              let b = get_inst_all A lib parts.1 1 ops false a.1 in
              get_inst_all A lib k w (a.0 ∷ b.0 ∷ []) true b.1)
      pair parts =
          let v = width_of A lib c (at A lib ops 0) in
          let a = get_inst-Adds A lib laws parts.0 v ops (get_all_ones_value v) false c h.0 h.2 in
          let b =
            get_inst-Adds A lib laws parts.1 1 ops (get_all_ones_value 1) false _ a.valid
              (All-weaken _ _ ops (λ p q. omega (arith, q, a.extends.next_le)) h.2) in
          let d =
            get_inst-Adds A lib laws k w _ (get_all_ones_value w) true _ b.valid
              (omega (arith, a.inside, b.extends.next_le), (b.inside, tt)) in
          (
            d.valid,
            omega (arith, h.1, a.extends.next_le, b.extends.next_le, d.extends.next_le),
            d.inside,
          )

      made :
          (o : Option (Kind × Kind))
          → Made n (elim o [
            | none ↦ get_inst_all A lib k w ops true c
            | some parts ↦
                let v = width_of A lib c (at A lib ops 0) in
                let a = get_inst_all A lib parts.0 v ops false c in
                let b = get_inst_all A lib parts.1 1 ops false a.1 in
                get_inst_all A lib k w (a.0 ∷ b.0 ∷ []) true b.1
          ])
      made none =
          let a = get_inst-Adds A lib laws k w ops (get_all_ones_value w) true c h.0 h.2 in
          (a.valid, omega (arith, h.1, a.extends.next_le), a.inside)
      made (some parts) = pair parts

  check_and_make-Made :
      (n : ℕ) (tp : TokenPos) (k : Kind) (w : ℕ) (ops : List ℕ) (c : Context Num)
      → Operands A lib laws bits n (ops, c)
      → Gives (Made n) (check_and_make A lib tp k w ops c)
  unfolding check_and_make
  check_and_make-Made n tp k w ops c h =
      Gives-option (type_check_inst A lib k w ops c) undefined _ (λ checked e.
        Gives->>= _ _
          (Gives-map_err _ checked
            (type_check_inst-Operands A lib laws bits n k w ops c checked h e))
          (λ r hr. Gives-ok (make_inst-Made n k r.0 r.1 r.2 hr)))

  check_and_make_phi-Made :
      (n : ℕ) (tp : TokenPos) (w : ℕ) (b : Block) (idx : Option ℕ) (ops : List ℕ) (c : Context Num)
      → Operands A lib laws bits n (ops, c)
      → Gives (Made n) (check_and_make_phi A lib tp w b idx ops c)
  unfolding check_and_make_phi
  check_and_make_phi-Made n tp w b idx ops c h =
      Gives->>= _ _
        (Gives-map_err _ (type_check_phi A lib w b idx ops c)
          (type_check_phi-Operands A lib laws bits n w b idx ops c h))
        (λ r hr.
          let a = get_phi-Adds A lib laws b r.0 _ r.1 hr.0 hr.2 in
          Gives-ok (a.valid, omega (arith, hr.1, a.extends.next_le), a.inside))

  define_inst-Sound :
      (name : List ℕ) (external : Bool) (i : ℕ) (s : State Num)
      → Sound A lib inp s
      → i < s.ic.next
      → Sound A lib inp (define_inst A lib name external i s)
  unfolding define_inst
  define_inst-Sound name external i s h below =
      let uses =
        if external then insert_all (i ∷ []) s.external_uses_set else s.external_uses_set in
      set_inst-Sound A lib laws bits inp name i _
        (set_fields-Sound A lib inp i
          (λ x. record x { deps_with_external_uses = insert_all uses x.deps_with_external_uses })
          (record s { external_uses_set = uses }) (λ x. refl)
          (record {
            valid = h.valid;
            names = h.names;
            given = h.given;
            reps = h.reps;
            pcs = h.pcs;
            bpcs = h.bpcs;
            lhs = h.lhs;
            asserted = h.asserted;
            no_lhs = h.no_lhs;
            largest = h.largest;
          }))
        below

  parse_phi-Sound :
      (fuel : ℕ) (tp : TokenPos) (name : List ℕ) (w : ℕ) (s : State Num)
      → Sound A lib inp s
      → Gives (Sound A lib inp) (parse_phi A lib fuel inp tp name w s)
  unfolding parse_phi
  parse_phi-Sound fuel tp name w s h =
      Gives->>= _ _ (parse_phi_block-Sound A lib laws bits inp name s h) (λ b hb.
        Gives->>= _ _ (parse_ops-Sound A lib laws bits inp fuel 0 tp b.1 (hb, omega arith)) (λ r hr.
          Gives->>= _ _
            (check_and_make_phi-Made r.2.ic.next tp w b.0
              (find_index r.2.block_pc_idx_map b.0.address) r.0 r.2.ic
              (hr.0.0.valid, omega arith, hr.1))
            (λ i hi. Gives-ok (
              define_inst-Sound name r.1 i.0 _ (Sound-grows A lib inp r.2 i.1 hr.0.0 hi.0 hi.1)
                hi.2))))

  parse_operation-Sound :
      (fuel : ℕ) (tp : TokenPos) (k : Kind) (name : List ℕ) (w : ℕ) (s : State Num)
      → Sound A lib inp s
      → Gives (Sound A lib inp) (parse_operation A lib fuel inp tp k name w s)
  unfolding parse_operation
  parse_operation-Sound fuel tp k name w s h =
      Gives->>= _ _ (parse_ops-Sound A lib laws bits inp fuel 0 tp s (h, omega arith)) (λ r hr.
        Gives->>= _ _
          (check_and_make-Made r.2.ic.next tp k w r.0 r.2.ic (hr.0.0.valid, omega arith, hr.1))
          (λ i hi. Gives-ok (
            define_inst-Sound name r.1 i.0 _ (Sound-grows A lib inp r.2 i.1 hr.0.0 hi.0 hi.1)
              hi.2)))

  parse_kind-Sound :
      (fuel : ℕ) (tp : TokenPos) (k : Kind) (name : List ℕ) (w : ℕ) (s : State Num)
      → Sound A lib inp s
      → Gives (Sound A lib inp) (parse_kind A lib fuel inp tp k name w s)
  unfolding parse_kind parse_hole
  parse_kind-Sound fuel tp Kind.var name w s h =
      parse_var-Sound A lib laws bits inp fuel tp Kind.var name w s h
  parse_kind-Sound fuel tp Kind.reserved_const name w s h =
      parse_var-Sound A lib laws bits inp fuel tp Kind.reserved_const name w s h
  parse_kind-Sound fuel tp Kind.reserved_inst name w s h =
      parse_var-Sound A lib laws bits inp fuel tp Kind.reserved_inst name w s h
  parse_kind-Sound fuel tp Kind.phi name w s h = parse_phi-Sound fuel tp name w s h
  parse_kind-Sound fuel tp Kind.hole name w s h =
      let a = create_hole-Adds A lib laws w s.ic h.valid in
      Gives-ok (
        set_inst-Sound A lib laws bits inp name _ _
          (Sound-grows A lib inp s _ h a.valid a.extends.next_le) a.inside)
  parse_kind-Sound fuel tp k name w s h = parse_operation-Sound fuel tp k name w s h

  parse_right_side-Sound :
      (fuel : ℕ) (tp : TokenPos) (name : List ℕ) (w : ℕ) (s : State Num)
      → Sound A lib inp s
      → Gives (Sound A lib inp) (parse_right_side A lib fuel inp tp name w s)
  unfolding parse_right_side
  parse_right_side-Sound fuel tp name w s h =
      let k = kind_of (token_text inp s.cur_tok) in
      Gives-elim (is_no_kind A lib k)
        (Gives-elim (has_text A lib inp s "block")
          (parse_block-Sound A lib laws bits inp tp name w s h) Gives-err)
        (Gives-reject (is_var A lib k && w == 0) _ _ (
          Gives->>= _ _ (consume_token-Sound A lib inp s h)
            (λ s1 h1. parse_kind-Sound fuel tp k name w s1 h1.0)))

  pub parse_definition-Sound :
      (fuel : ℕ) (s : State Num)
      → Sound A lib inp s
      → Gives (Sound A lib inp) (parse_definition A lib fuel inp s)
  unfolding parse_definition
  parse_definition-Sound fuel s h =
      Gives-reject (not (is_null (find_name s.context.insts s.cur_tok.name))) _ _ (
        Gives-reject
          (elim (find_name s.context.blocks s.cur_tok.name) [ none ↦ false | some b ↦ true ]) _ _
          (Gives->>= _ _ (consume_token-Sound A lib inp s h) (λ s1 h1.
            Gives-reject (not (is_tok A lib equals s1)) _ _ (
              Gives->>= _ _ (consume_token-Sound A lib inp s1 h1.0) (λ s2 h2.
                Gives-reject (not (is_tok A lib ident s2)) _ _
                  (parse_right_side-Sound fuel _ s.cur_tok.name s.cur_tok.width s2 h2.0))))))
