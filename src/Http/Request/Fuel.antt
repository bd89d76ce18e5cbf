-- ===== src/Http/Request/Fuel.antt =====
-- The loop of `parse_header_section` needs no more rounds than the input has bytes.
use spare_node.Base.{
  ℕ, zero, suc, ◌+◌, ◌-◌, ◌≤◌, [], ◌∷◌, none, Bytes, ok, ◌≡◌, refl, sym, ap, arith, inl, inr,
  length, length-drop,
}
use spare_node.Http.Parse.{Limits}
use spare_node.Http.Request.Lines.{find_header_line_end}
use spare_node.Http.Request.Fields.{HeaderParseState}
use spare_node.Http.Request.Stable.{find_header_line_end_bounds}
use spare_node.Http.Request.Sections.{Step-cases, section_step_next}
use spare_node.Http.Request.Head.{section_step, sections_from}

sections_from_empty :
    (fuel : ℕ) (limits : Limits) (s l : ℕ) (state : HeaderParseState)
    → sections_from fuel limits s l [] state ≡ ok none
unfolding sections_from section_step find_header_line_end
sections_from_empty zero limits s l state = refl
sections_from_empty (suc fuel) limits s l state = refl

-- With fuel for the input from the line's start on, the loop of `parse_header_section` gives the
-- same result as with any more fuel: it never stops for want of it.
pub sections_from_enough :
    (fuel fuel' : ℕ) (limits : Limits) (s l : ℕ) (rest : Bytes) (state : HeaderParseState)
    → length rest ≤ fuel
    → fuel ≤ fuel'
    → sections_from fuel limits s l rest state ≡ sections_from fuel' limits s l rest state
unfolding sections_from
sections_from_enough zero zero limits s l rest state h k = refl
sections_from_enough zero (suc fuel') limits s l [] state h k =
    sym (sections_from_empty (suc fuel') limits s l state)
sections_from_enough zero (suc fuel') limits s l (byte ∷ rest) state h k = absurd (omega (arith, h))
sections_from_enough (suc fuel) zero limits s l rest state h k = absurd (omega (arith, k))
sections_from_enough (suc fuel) (suc fuel') limits s l rest state h k =
    elim (Step-cases (section_step limits s l rest state)) [
      | inl (r, done) ↦ rw (sections_from, done) refl
      | inr (l', rest', next, goes) ↦
          let (e, found, read, at, left) =
            section_step_next limits s l rest state l' rest' next goes in
          let (low, high) = find_header_line_end_bounds limits.max_header_bytes s l rest e found in
          let shorter : length rest' ≤ fuel =
            omega (arith, h, low, high, ap length left, length-drop (e + 2 - l) rest) in
          rw (sections_from, goes)
            (sections_from_enough fuel fuel' limits s l' rest' next shorter (omega (arith, k)))
    ]
