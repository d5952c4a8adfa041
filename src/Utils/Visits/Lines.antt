-- ===== src/Utils/Visits/Lines.antt =====
-- What `visitBB` prints, and where it ends.
use mathlib.Core.List.{append_assoc}
use snippets_llvm.Base.{
  Bool, true, false, List, [], ◌∷◌, ◌++◌, codes, if◌then◌else◌, ◌≡◌, refl, ap, flat_map, All, inl,
  inr,
}
use snippets_llvm.Outcome.{Outcome, ok, fault, Fault, Outcome-cases}
use snippets_llvm.Errs.{Run, Chunk, text, write, pure, ◌>>◌, ◌>>=◌}
use snippets_llvm.Llvm.{Ir}
use snippets_llvm.Utils.Visits.{visit_insts, visit_bb}

module _ (ir : Ir) where
  open ir use {Value, insts, print_value}

  abbrev pub answer_chunks : Outcome Bool → Value → List Chunk
  answer_chunks (ok true) i = text (print_value i ++ codes " meets cb requirement\n") ∷ []
  answer_chunks (ok false) i = []
  answer_chunks (fault e) i = []

  -- What is written for one instruction: what the callback writes, and a line if it says so.
  abbrev pub visit_chunks : (Value → Run Bool) → Value → List Chunk
  visit_chunks cb i = (cb i).out ++ answer_chunks (cb i).end i

  abbrev pub Returns : (Value → Run Bool) → Value → Type 0
  Returns cb i = (meets : Bool) × ((cb i).end ≡ ok meets)

  -- What is left where the loop ends, what is written there, and the end.
  pub data Rest (cb : Value → Run Bool) : List Value → Run (Unit {0}) → Type 0 where
    at_end : Rest cb [] (pure tt)
    at_fault :
        (i : Value) (is : List Value) (e : Fault)
        → (cb i).end ≡ fault e
        → Rest cb (i ∷ is) (record { out = (cb i).out; end = fault e })

  -- A loop over some instructions, as it runs.
  abbrev pub Visits : (Value → Run Bool) → List Value → Run (Unit {0}) → Type 0
  Visits cb is r =
      (before after : List Value) × (rest : Run (Unit {0})) × (is ≡ before ++ after)
      × All (Returns cb) before
      × Rest cb after rest
      × (r ≡ record { out = flat_map (visit_chunks cb) before ++ rest.out; end = rest.end })

  -- The rest of the loop behind an instruction on which the callback returns.
  Visits-cons :
      (cb : Value → Run Bool) (i : Value) (is : List Value) (r : Run (Unit {0}))
      → Returns cb i
      → Visits cb is r
      → Visits cb (i ∷ is) (record { out = visit_chunks cb i ++ r.out; end = r.end })
  Visits-cons cb i is r returns (before, after, rest, e, all, last, o) = (
    i ∷ before,
    after,
    rest,
    ap (λ is. i ∷ is) e,
    (returns, all),
    last,
    rw (o, append_assoc (visit_chunks cb i) (flat_map (visit_chunks cb) before) rest.out) refl,
  )

  line_then :
      (cb : Value → Run Bool) (i : Value) (k : Run (Unit {0})) (meets : Bool)
      → (cb i).end ≡ ok meets
      → (cb i >>= λ meets.
          (if meets then write (print_value i ++ codes " meets cb requirement\n") else pure tt)
          >> k)
        ≡ record { out = visit_chunks cb i ++ k.out; end = k.end }
  line_then cb i k true e = rw (e, append_assoc (cb i).out (answer_chunks (ok true) i) k.out) refl
  line_then cb i k false e = rw (e, append_assoc (cb i).out [] k.out) refl

  visit_insts-Visits :
      (cb : Value → Run Bool) (is : List Value) → Visits cb is (visit_insts ir cb is)
  unfolding visit_insts
  visit_insts-Visits cb [] = ([], [], pure tt, refl, tt, at_end, refl)
  visit_insts-Visits cb (i ∷ is) = elim (Outcome-cases (cb i).end) [
    | inl (meets, e) ↦
        rw (line_then cb i (visit_insts ir cb is) meets e)
          (Visits-cons cb i is (visit_insts ir cb is) (meets, e) (visit_insts-Visits cb is))
    | inr (x, e) ↦ ([], i ∷ is, _, refl, tt, at_fault i is x e, rw e refl)
  ]

  -- The callback of `visitBB` returns on the instructions of the block up to its end, or up to one
  -- at which the callback ends by a fault. For each of the former, in order, `visitBB` writes what
  -- the callback writes, and then a line if the callback says so; it ends without a fault at the
  -- end of the block, and otherwise behind what the callback writes at the fault, by this fault.
  pub visit_bb-Visits : (b : Value) (cb : Value → Run Bool) → Visits cb (insts b) (visit_bb ir b cb)
  unfolding visit_bb
  visit_bb-Visits b cb = visit_insts-Visits cb (insts b)
