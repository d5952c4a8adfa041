-- ===== src/Errs/Ends.antt =====
-- How code that writes ends, whatever it writes.
use snippets_llvm.Base.{List, ◌≡◌, ◌↔◌, refl}
use snippets_llvm.Outcome.{Outcome, ok, fault, ◌>>◌}
use snippets_llvm.Errs.{Run, Chunk, then_run}

-- Two steps, one after the other.
pub then_end :
    (m : Run (Unit {0})) (k : Run (Unit {0}))
    → (then_run m.out m.end (λ _. k)).end ≡ (m.end >> k.end)
then_end m k = by_end m.out m.end
  where
    by_end :
        (out : List Chunk) (end : Outcome (Unit {0}))
        → (then_run out end (λ _. k)).end ≡ (end >> k.end)
    by_end out (ok a) = refl
    by_end out (fault e) = refl

-- Two steps return exactly if both do.
pub then_returns :
    (m : Run (Unit {0})) (k : Run (Unit {0}))
    → ((then_run m.out m.end (λ _. k)).end ≡ ok tt) ↔ ((m.end ≡ ok tt) × (k.end ≡ ok tt))
then_returns m k = by_end m.out m.end
  where
    by_end :
        (out : List Chunk) (end : Outcome (Unit {0}))
        → ((then_run out end (λ _. k)).end ≡ ok tt) ↔ ((end ≡ ok tt) × (k.end ≡ ok tt))
    by_end out (ok a) = (λ h. (refl, h), λ h. h.1)
    by_end out (fault e) = (λ h. cc h, λ h. cc h.0)

-- A first step has returned where two steps have.
pub first_returns :
    {A : Type 0} (m : Run (Unit {0})) (k : Run A) (a : A)
    → (then_run m.out m.end (λ _. k)).end ≡ ok a
    → m.end ≡ ok tt
first_returns {A} m k a h = by_end m.out m.end h
  where
    by_end :
        (out : List Chunk) (end : Outcome (Unit {0}))
        → (then_run out end (λ _. k)).end ≡ ok a
        → end ≡ ok tt
    by_end out (ok u) h = refl
    by_end out (fault e) h = absurd (cc h)
