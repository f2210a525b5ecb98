-- ===== src/Vector/Loop/Elements.antt =====
-- What the loops leave in the destination.
use mpact_riscv.Common.{
  ℕ, zero, suc, ◌+◌, ◌-◌, ◌*◌, ◌/◌, ◌%◌, ◌≤◌, ◌<◌, ◌≡◌, refl, ap, sym, ◌∙◌, arith, subst, min, Bool,
  true, false, not, ◌&&◌, ◌||◌, ◌==◌, ltb, leb, if◌then◌else◌, Option, none, some, max, Bool-cases,
  inl, inr,
}
use native.Mathlib.Nat.{mul-le-mul_right, add-mul-div_right, div-eq_of_lt, mod-add-div', mod-lt}
use mpact_riscv.Vector.{VectorState}
use mpact_riscv.Vector.Loop.{
  Span, Group, Outcome, Run, Progress, mask_bit, put, is_none, item_step, item_loop, register_step,
  register_loop, vector_loop, Operands, VectorUnit,
}

abbrev pub or_old : Option ℕ → ℕ → ℕ
or_old none old = old
or_old (some x) old = x

put_lem :
    (o : Option ℕ) (i : ℕ) (span : Span) (k : ℕ)
    → put o i span k ≡ (if k == i then or_old o (span k) else span k)
put_lem none i span k = ground arith
put_lem (some x) i span k = refl

-- A state but for the saturation flag.
abbrev pub apart : VectorState → VectorState
apart v = record v { vxsat = false }

quiet_test : (a b : Bool) → (a && b && (false || false)) ≡ false
quiet_test a b = ground arith

item_step_lem :
    (c : ℕ → Bool → Outcome) (mask : Span) (i : ℕ) (r : Run) (o : Outcome)
    → c r.vector_index (mask_bit mask r.vector_index) ≡ o
    → r.state.vector_exception ≡ false
    → o.fails ≡ false
    → item_step c mask i r ≡ record {
      state = record (r.state) { vxsat = r.state.vxsat || o.saturates; vector_exception = false };
      span = put o.value i r.span;
      vector_index = r.vector_index + 1;
      stopped = false;
    }
unfolding item_step
item_step_lem c mask i r o e kept fine =
    rw (e, kept, fine, quiet_test (is_none o.value) (mask_bit mask r.vector_index)) refl

module _ (compute : Group → ℕ → Bool → Outcome) (mask : Span) (num per_vector start : ℕ)
    (v : VectorState) (old : Group) where
  -- What an element gets, and a group of which the elements below `reached` are done.
  abbrev pub result : ℕ → ℕ → ℕ
  result j before = or_old ((compute old j (mask_bit mask j)).value) before

  abbrev pub Done : ℕ → Group
  Done reached reg item =
      let j = reg * per_vector + item in
      if ltb item per_vector && (leb start j && ltb j reached)
      then result j (old reg item)
      else old reg item

  Done-suc :
      (reg i k : ℕ)
      → start ≤ reg * per_vector + i
      → i < per_vector
      → (if k == i
          then or_old
              ((compute old (reg * per_vector + i) (mask_bit mask (reg * per_vector + i))).value)
              (Done (reg * per_vector + i) reg k)
          else Done (reg * per_vector + i) reg k)
        ≡ Done (suc (reg * per_vector + i)) reg k
  Done-suc reg i k after inside =
      let base = reg * per_vector in
      elim (Bool-cases (k == i)) [
        | inl e ↦
            let at : k ≡ i = ground arith in
            let in_range : (ltb i per_vector
                  && (leb start (base + i) && ltb (base + i) (suc (base + i))))
                ≡ true =
              ground arith in
            let not_yet : (ltb i per_vector && (leb start (base + i) && ltb (base + i) (base + i)))
                ≡ false =
              ground arith in
            rw (e, at, in_range, not_yet) refl
        | inr e ↦
            let apart_from : ltb (base + k) (suc (base + i)) ≡ ltb (base + k) (base + i) =
              ground arith in
            rw (e, apart_from) refl
      ]

  pub record IsRun (reg reached : ℕ) (r : Run) : Type 0 where
    pub index : r.vector_index ≡ reached
    pub going : r.stopped ≡ false
    pub only : apart r.state ≡ apart v
    pub items : (k : ℕ) → r.span k ≡ Done reached reg k

  pub record IsDone (reached : ℕ) (p : Progress) : Type 0 where
    pub index : p.vector_index ≡ reached
    pub going : p.stopped ≡ false
    pub only : apart p.state ≡ apart v
    pub items : (r k : ℕ) → p.dest r k ≡ Done reached r k

  quot : (reg k : ℕ) → k < per_vector → (reg * per_vector + k) / per_vector ≡ reg
  quot reg k inside =
      let swapped : reg * per_vector + k ≡ k + reg * per_vector = omega arith in
      let none_left : k / per_vector ≡ 0 = div-eq_of_lt inside in
      ap (λ t. t / per_vector) swapped
      ∙ add-mul-div_right k reg (omega (arith, inside))
      ∙ omega (arith, none_left)

  -- The registers before and after one with the elements from `reg * per_vector` on.
  below : (reg r : ℕ) → r < reg → r * per_vector + per_vector ≤ reg * per_vector
  below reg r h = grind (arith, mul-le-mul_right per_vector h)

  Done-other :
      (reg r k reached further : ℕ)
      → (r == reg) ≡ false
      → reg * per_vector ≤ reached
      → reached ≤ further
      → further ≤ reg * per_vector + per_vector
      → Done reached r k ≡ Done further r k
  Done-other reg r k reached further other low grows high = elim (Bool-cases (ltb r reg)) [
    | inl before ↦ ground (arith, below reg r, before)
    | inr later ↦ ground (arith, below r reg, later, other)
  ]

  Done-fresh :
      (reg r k reached : ℕ)
      → reg ≤ r
      → reached ≤ max start (reg * per_vector)
      → reached ≤ reg * per_vector + per_vector
      → Done reached r k ≡ old r k
  Done-fresh reg r k reached later fresh high =
      let more : reg * per_vector ≤ r * per_vector = mul-le-mul_right per_vector later in
      ground (arith, more)

  module _ (quiet : v.vector_exception ≡ false)
      (succeeds : (j : ℕ) (b : Bool) → (compute old j b).fails ≡ false)
      (steady : (g : Group) (j : ℕ) (b : Bool)
        → ((r k : ℕ) → j / per_vector ≤ r → g r k ≡ old r k)
        → compute g j b ≡ compute old j b) where
    item_step-IsRun :
        (c : ℕ → Bool → Outcome) (reg i : ℕ) (r : Run)
        → c (reg * per_vector + i) (mask_bit mask (reg * per_vector + i))
          ≡ compute old (reg * per_vector + i) (mask_bit mask (reg * per_vector + i))
        → start ≤ reg * per_vector + i
        → i < per_vector
        → IsRun reg (reg * per_vector + i) r
        → IsRun reg (suc (reg * per_vector + i)) (item_step c mask i r)
    unfolding item_step
    item_step-IsRun c reg i r same after inside run =
        let j = reg * per_vector + i in
        let o = compute old j (mask_bit mask j) in
        let kept : r.state.vector_exception ≡ false =
          ap (λ (s : VectorState). s.vector_exception) run.only ∙ quiet in
        let fine : o.fails ≡ false = succeeds j (mask_bit mask j) in
        let at_index : c r.vector_index (mask_bit mask r.vector_index) ≡ o = rw run.index same in
        rw (item_step_lem c mask i r o at_index kept fine) (record {
          index = omega (arith, run.index);
          going = refl;
          only =
              ap (λ (s : VectorState). record s { vector_exception = false }) run.only
              ∙ ap (λ (b : Bool). record v { vector_exception = b; vxsat = false }) (sym quiet);
          items =
              λ k. put_lem o.value i r.span k ∙ rw (run.items k) (Done-suc reg i k after inside);
        })

    item_loop-IsRun :
        (c : ℕ → Bool → Outcome) (n reg i : ℕ) (r : Run)
        → ((k : ℕ)
            → k < per_vector
            → c (reg * per_vector + k) (mask_bit mask (reg * per_vector + k))
              ≡ compute old (reg * per_vector + k) (mask_bit mask (reg * per_vector + k)))
        → start ≤ reg * per_vector + i
        → i + n ≤ per_vector
        → reg * per_vector + i ≤ num
        → IsRun reg (reg * per_vector + i) r
        → IsRun reg (min (reg * per_vector + i + n) num) (item_loop c mask num n i r)
    unfolding item_loop
    item_loop-IsRun c zero reg i r same after inside within run =
        let e : min (reg * per_vector + i + 0) num ≡ reg * per_vector + i = omega arith in rw e run
    item_loop-IsRun c (suc n) reg i r same after inside within run =
        let j = reg * per_vector + i in
        elim (Bool-cases (ltb j num)) [
          | inl more ↦
              let test : (r.stopped || not (ltb r.vector_index num)) ≡ false =
                rw (run.going, run.index, more) refl in
              let next : j + 1 ≡ suc j = omega arith in
              let e : min (j + suc n) num ≡ min (reg * per_vector + (i + 1) + n) num =
                omega arith in
              let e' : suc j ≡ reg * per_vector + (i + 1) = omega arith in
              rw (test, e)
                (item_loop-IsRun c n reg (i + 1) (item_step c mask i r) same (omega (arith, after))
                  (omega (arith, inside)) (ground (arith, more))
                  (rw (← e') (
                    item_step-IsRun c reg i r (same i (omega (arith, inside))) after
                      (omega (arith, inside)) run)))
          | inr done ↦
              let test : (r.stopped || not (ltb r.vector_index num)) ≡ true =
                rw (run.going, run.index, done) refl in
              let e : min (j + suc n) num ≡ j = ground (arith, done, within) in rw (test, e) run
        ]

    register_step-IsDone :
        (reg item : ℕ) (p : Progress)
        → item < per_vector
        → start ≤ reg * per_vector + item
        → reg * per_vector + item ≤ max start (reg * per_vector)
        → reg * per_vector + item < num
        → IsDone (reg * per_vector + item) p
        → IsDone
            (min (reg * per_vector + per_vector) num)
            (register_step compute mask num per_vector reg item p)
    unfolding register_step
    register_step-IsDone reg item p inside after fresh within done =
        let reached = reg * per_vector + item in
        let rounds = min per_vector num - item in
        let r : Run = record {
          state = p.state;
          span = p.dest reg;
          vector_index = p.vector_index;
          stopped = false;
        } in
        let same : (k : ℕ)
            → k < per_vector
            → compute p.dest (reg * per_vector + k) (mask_bit mask (reg * per_vector + k))
              ≡ compute old (reg * per_vector + k) (mask_bit mask (reg * per_vector + k)) =
          λ k k_inside. steady p.dest (reg * per_vector + k) _ (λ r' k' later.
            done.items r' k'
            ∙ Done-fresh reg r' k' reached (rw (← quot reg k k_inside) later) fresh
                (omega (arith, inside))) in
        let run : IsRun reg (min (reached + rounds) num)
            (item_loop (compute p.dest) mask num rounds item r) =
          item_loop-IsRun (compute p.dest) rounds reg item r same after (omega (arith, inside))
            (omega (arith, within))
            (record {
              index = done.index;
              going = refl;
              only = done.only;
              items = done.items reg;
            }) in
        let e : min (reached + rounds) num ≡ min (reg * per_vector + per_vector) num =
          omega (arith, inside, within) in
        rw (← e) (record {
          index = run.index;
          going = run.going;
          only = run.only;
          items = λ r' k. elim (Bool-cases (r' == reg)) [
            | inl at ↦ let eq : r' ≡ reg = ground (arith, at) in rw (at, eq) (run.items k)
            | inr other ↦ rw other (
                done.items r' k
                ∙ Done-other reg r' k reached (min (reached + rounds) num) other (omega arith)
                    (omega (arith, within, inside)) (omega (arith, inside)))
          ];
        })

    register_loop-stop :
        (n reg item : ℕ) (p : Progress)
        → num ≤ p.vector_index
        → register_loop compute mask num per_vector n reg item p ≡ p
    unfolding register_loop
    register_loop-stop zero reg item p e = refl
    register_loop-stop (suc n) reg item p e = ground (arith, e)

    register_loop-IsDone :
        (n reg item : ℕ) (p : Progress)
        → item < per_vector
        → start ≤ reg * per_vector + item
        → reg * per_vector + item ≤ max start (reg * per_vector)
        → reg * per_vector + item ≤ num
        → num ≤ (reg + n) * per_vector
        → IsDone (reg * per_vector + item) p
        → IsDone num (register_loop compute mask num per_vector n reg item p)
    unfolding register_loop
    register_loop-IsDone zero reg item p inside after fresh within enough done =
        let e : reg * per_vector + item ≡ num = omega (arith, within, enough) in
        subst (λ t. IsDone t p) e done
    register_loop-IsDone (suc n) reg item p inside after fresh within enough done =
        let reached = reg * per_vector + item in
        elim (Bool-cases (ltb reached num)) [
          | inl more ↦
              let test : (p.stopped || not (ltb p.vector_index num)) ≡ false =
                rw (done.going, done.index, more) refl in
              let q = register_step compute mask num per_vector reg item p in
              let q_done : IsDone (min (reg * per_vector + per_vector) num) q =
                register_step-IsDone reg item p inside after fresh (ground (arith, more)) done in
              rw test (elim (Bool-cases (ltb num (reg * per_vector + per_vector))) [
                | inl last ↦
                    let e : min (reg * per_vector + per_vector) num ≡ num = ground (arith, last) in
                    let q_all = subst (λ t. IsDone t q) e q_done in
                    rw (register_loop-stop n (reg + 1) 0 q (omega (arith, q_all.index))) q_all
                | inr further ↦
                    let e : min (reg * per_vector + per_vector) num ≡ (reg + 1) * per_vector + 0 =
                      ground (arith, further) in
                    register_loop-IsDone n (reg + 1) 0 q (omega (arith, inside))
                      (omega (arith, after, inside)) (omega arith) (ground (arith, further))
                      (subst (λ t. num ≤ t * per_vector) (omega arith) enough)
                      (subst (λ t. IsDone t q) e q_done)
              ])
          | inr all ↦
              let test : (p.stopped || not (ltb p.vector_index num)) ≡ true =
                rw (done.going, done.index, all) refl in
              let e : reached ≡ num = ground (arith, all, within) in
              rw test (subst (λ t. IsDone t p) e done)
        ]

-- The number of registers is enough for the elements.
registers_enough :
    (num per_vector : ℕ) → 0 < per_vector → num ≤ (num + per_vector - 1) / per_vector * per_vector
registers_enough num per_vector pos =
    let rest : (num + per_vector - 1) % per_vector < per_vector =
      mod-lt (num + per_vector - 1) pos in
    omega (arith, mod-add-div' (num + per_vector - 1) per_vector, rest)

-- An instruction that can run: no exception, elements that fit in a register, and enough registers.
pub record IsReady (size : ℕ) (o : Operands) (u : VectorUnit) : Type 0 where
  pub quiet : u.state.vector_exception ≡ false
  pub fits : 0 < u.state.vector_register_byte_length / size
  pub room :
      let per_vector = u.state.vector_register_byte_length / size in
      (u.state.vector_length + per_vector - 1) / per_vector ≤ o.dest_size

-- A function of the group of destination registers that reads element `j` of its registers from that of `j`
-- on, which are not submitted before `j` is done.
abbrev pub IsSteady {ℓ} : {A : Type ℓ} → ℕ → Group → (Group → ℕ → A) → Type ℓ
IsSteady per_vector old source =
    (g : Group) (j : ℕ)
    → ((r k : ℕ) → j / per_vector ≤ r → g r k ≡ old r k)
    → source g j ≡ source old j

module _ (size : ℕ) (compute : Group → ℕ → Bool → Outcome) (o : Operands) (u : VectorUnit)
    (ready : IsReady size o u) (succeeds : (j : ℕ) (b : Bool) → (compute u.dest j b).fails ≡ false)
    (steady : IsSteady (u.state.vector_register_byte_length / size) u.dest compute) where
  pub vector_loop_lem :
      let v = u.state in
      let per_vector = v.vector_register_byte_length / size in
      (apart ((vector_loop size compute o u).state) ≡ record (apart v) { vstart = 0 })
      × ((r k : ℕ)
          → (vector_loop size compute o u).dest r k
            ≡ Done compute o.mask v.vector_length per_vector v.vstart v u.dest v.vector_length r k)
  unfolding vector_loop
  vector_loop_lem =
      let v = u.state in
      let num = v.vector_length in
      let per_vector = v.vector_register_byte_length / size in
      let max_regs = (num + per_vector - 1) / per_vector in
      let reg = v.vstart / per_vector in
      let item = v.vstart % per_vector in
      let p : Progress = record {
        state = v;
        dest = u.dest;
        vector_index = v.vstart;
        stopped = false;
      } in
      let room : ltb o.dest_size max_regs ≡ false = ground (arith, ready.room) in
      let at : reg * per_vector + item ≡ v.vstart =
        omega (arith, mod-add-div' v.vstart per_vector) in
      rw room (elim (Bool-cases (leb num v.vstart)) [
        | inl late ↦
            let e : register_loop compute o.mask num per_vector (max_regs - reg) reg item p ≡ p =
              register_loop-stop compute o.mask num per_vector v.vstart v u.dest ready.quiet
                succeeds (λ g j b agrees. ap (λ f. f b) (steady g j agrees)) (max_regs - reg) reg
                item p (ground (arith, late)) in
            rw e (refl, λ r k. ground (arith, late))
        | inr early ↦
            let rest : v.vstart % per_vector < per_vector = mod-lt v.vstart ready.fits in
            let enough = registers_enough num per_vector ready.fits in
            let more : max_regs * per_vector ≤ (reg + (max_regs - reg)) * per_vector =
              mul-le-mul_right per_vector (omega arith) in
            let start_done : IsDone compute o.mask num per_vector v.vstart v u.dest v.vstart p =
              record { index = refl; going = refl; only = refl; items = λ r k. ground arith } in
            let done =
              register_loop-IsDone compute o.mask num per_vector v.vstart v u.dest ready.quiet
                succeeds (λ g j b agrees. ap (λ f. f b) (steady g j agrees)) (max_regs - reg) reg
                item p rest (omega (arith, at)) (omega (arith, at)) (ground (arith, at, early))
                (omega (arith, enough, more))
                (subst (λ t. IsDone compute o.mask num per_vector v.vstart v u.dest t p) (sym at)
                  start_done) in
            (ap (λ (s : VectorState). record s { vstart = 0 }) done.only, done.items)
      ])
