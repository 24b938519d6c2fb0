-- ===== src/Exrail/Loading.antt =====
-- EXRAIL2.cpp: `LookListLoader` and the scan of the script that it is given.
use dccexpress_mini.Prelude.{
  ℕ, zero, suc, ◌+◌, ◌*◌, ◌<◌, ◌≡◌, refl, sym, ap, ◌∙◌, inl, inr, false, ◌&&◌, Option, none, some,
  List, [], ◌∷◌, ◌++◌, ◌==◌, if◌then◌else◌, length, arith, Bool-cases, length-append,
}
use dccexpress_mini.Exrail.Opcode.{byte_endexrail}
use dccexpress_mini.Exrail.State.{Build}
use dccexpress_mini.Exrail.State.LookList.{unchained}
use dccexpress_mini.Exrail.Lookup.{add, find, first_result}
use dccexpress_mini.Exrail.Program.{
  get_operand, positions, one_of, count_handlers, add_handlers, look_list_loader,
}

abbrev or_value : Option ℕ → ℕ → ℕ
or_value none d = d
or_value (some v) d = v

module _ (b : Build) (op1 op2 op3 k : ℕ) where
  -- The first of n instructions from pc on that is one of the three, with k its operand, and that
  -- stands before the end of the script: -1 for none.
  unfoldable pub first_handler : ℕ → ℕ → ℕ
  first_handler zero pc = 0xFFFF
  first_handler (suc n) pc =
      let later = first_handler n (pc + 3) in
      if b.route_code pc == byte_endexrail
      then 0xFFFF
      else (if one_of op1 op2 op3 (b.route_code pc) && get_operand b pc 0 == k then pc else later)

  first_of : List ℕ → ℕ
  first_of [] = 0xFFFF
  first_of (pc ∷ pcs) =
      let later = first_of pcs in
      if one_of op1 op2 op3 (b.route_code pc) && get_operand b pc 0 == k then pc else later

  or_value-first_result :
      (o v d : ℕ) (es : List (ℕ × ℕ))
      → or_value (first_result k (es ++ ((o, v) ∷ []))) d
        ≡ or_value (first_result k es) (if o == k then v else d)
  unfolding first_result
  or_value-first_result o v d [] = ground arith
  or_value-first_result o v d ((k', w) ∷ es) = ground (arith, or_value-first_result o v d es)

  -- A list that has room for what is still to come keeps all of it.
  find-add_handlers :
      (pcs : List ℕ) (n : ℕ) (es : List (ℕ × ℕ))
      → length es + count_handlers b op1 op2 op3 pcs ≡ n
      → find k (add_handlers b op1 op2 op3 pcs (unchained n es))
        ≡ or_value (first_result k es) (first_of pcs)
  unfolding count_handlers add_handlers find first_of add
  find-add_handlers [] n es room = ground arith
  find-add_handlers (pc ∷ pcs) n es room =
      elim (Bool-cases (one_of op1 op2 op3 (b.route_code pc))) [
        | inl e ↦
            let here : List (ℕ × ℕ) = (get_operand b pc 0, pc) ∷ [] in
            let more : length es + suc (count_handlers b op1 op2 op3 pcs) ≡ n =
              ground (arith, e, room) in
            let free : length es == n ≡ false = ground (arith, more) in
            rw (e, free)
              (find-add_handlers pcs n (es ++ here) (omega (arith, length-append {0} es here, more))
                ∙ or_value-first_result (get_operand b pc 0) pc (first_of pcs) es)
        | inr e ↦ rw e (find-add_handlers pcs n es (ground (arith, e, room)))
      ]

  positions-first :
      (fuel n pc : ℕ)
      → b.route_code (pc + n * 3) ≡ byte_endexrail
      → n < fuel
      → (r : List ℕ × ℕ) × (positions b fuel pc ≡ some r) × (first_of r.0 ≡ first_handler n pc)
  unfolding positions first_of first_handler
  positions-first zero n pc last h = elim h [ ]
  positions-first (suc fuel) zero pc last h =
      let e : b.route_code pc ≡ byte_endexrail = ground (arith, last) in (([], pc), rw e, refl)
  positions-first (suc fuel) (suc n) pc last h =
      let ends = b.route_code pc == byte_endexrail in
      let ih = positions-first fuel n (pc + 3) (ground (arith, last)) (omega arith) in
      elim (Bool-cases ends) [
        | inl e ↦ (([], pc), rw e, rw e)
        | inr e ↦ ((pc ∷ ih.0.0, ih.0.1), rw (e, ih.1), rw (e, ih.2))
      ]

  first_of-none : (pcs : List ℕ) → count_handlers b op1 op2 op3 pcs ≡ 0 → first_of pcs ≡ 0xFFFF
  unfolding count_handlers first_of
  first_of-none [] h = refl
  first_of-none (pc ∷ pcs) h = elim (Bool-cases (one_of op1 op2 op3 (b.route_code pc))) [
    | inl e ↦ absurd (ground (arith, h, e))
    | inr e ↦ rw e (first_of-none pcs (ground (arith, h, e)))
  ]

  loaded : (pcs : List ℕ) → find k (look_list_loader b pcs op1 op2 op3) ≡ first_of pcs
  unfolding look_list_loader find first_result
  loaded pcs =
      let all = find-add_handlers pcs (count_handlers b op1 op2 op3 pcs) [] (omega arith) in
      elim (Bool-cases (count_handlers b op1 op2 op3 pcs == 0)) [
        | inl e ↦ rw e (sym (first_of-none pcs (ground (arith, e))))
        | inr e ↦ rw e all
      ]

  -- Where the script ends within its size, the scan of its instructions comes to an end, and the
  -- list that the loader makes of them gives for an operand the first instruction of the three kinds
  -- that has it, or -1 for none.
  pub find-look_list_loader :
      (n : ℕ)
      → b.route_code (n * 3) ≡ byte_endexrail
      → n < b.code_size
      → (r : List ℕ × ℕ) × (positions b b.code_size 0 ≡ some r)
        × (find k (look_list_loader b r.0 op1 op2 op3) ≡ first_handler n 0)
  find-look_list_loader n last h =
      let scanned = positions-first b.code_size n 0 (ap b.route_code (omega arith) ∙ last) h in
      (scanned.0, scanned.1, loaded scanned.0.0 ∙ scanned.2)
