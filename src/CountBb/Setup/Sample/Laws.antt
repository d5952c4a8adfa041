-- ===== src/CountBb/Setup/Sample/Laws.antt =====
-- The sample meets the laws of the other changes.
use mathlib.Core.List.{Memᴰ, map-append}
use mathlib.Core.List.Memᴰ
use mathlib.Core.Path.{ap₂}
use native.Mathlib.Decide.{ℕ_discrete}
use snippets_llvm.Base.{
  ℕ, ◌+◌, true, false, arith, Option, none, some, List, [], ◌∷◌, ◌++◌, ◌≡◌, ◌≢◌, inl, inr, refl,
  sym, ap, ◌∙◌, subst, Text, text_eq, text_eq_iff, map, flat_map, length, Bool-cases, Memᴰ-cons,
}
use snippets_llvm.CountBb.Setup.{IsSetupEditor}
use snippets_llvm.Base.Names.{
  update, update_self, update_other, first_named, fresh, fresh_apart, first_named_found,
}
use snippets_llvm.CountBb.Setup.Sample.{
  Op, Instr, put_before, has_name, made, place, Program, find_global, get_or_insert, put_last,
  editor,
}
use snippets_llvm.CountBb.Setup.Sample.Inserts.{
  operation-made, place-made, same_before, first_put, elsewhere_put, editor_laws,
}

-- Globals
pub add_found :
    (t : Text) (g : ℕ) (gs : List (Text × ℕ))
    → find_global t gs ≡ none
    → find_global t (gs ++ ((t, g) ∷ [])) ≡ some g
add_found t g [] h = rw ((text_eq_iff t t).1 refl) refl
add_found t g ((u, k) ∷ gs) h = elim (Bool-cases (text_eq u t)) [
  | inl p ↦ cc (rw p at h)
  | inr p ↦ rw p (add_found t g gs (rw p at h))
]

pub add_misses :
    (t u : Text) (g : ℕ) (gs : List (Text × ℕ))
    → u ≢ t
    → find_global u (gs ++ ((t, g) ∷ [])) ≡ find_global u gs
add_misses t u g [] ne = elim (Bool-cases (text_eq t u)) [
  | inl p ↦ absurd (ne (sym ((text_eq_iff t u).0 p)))
  | inr p ↦ rw p refl
]
add_misses t u g ((v, k) ∷ gs) ne = rw (add_misses t u g gs ne) refl

pub free_names :
    (m : Program) (t : Text)
    → has_name m t ≡ false
    → (first_named m.names t m.ids ≡ none) × (find_global t m.globals ≡ none)
free_names m t h = (ground arith, ground arith)

-- Functions: a new one
insert_others :
    (names : ℕ → Text) (t u : Text) (new : ℕ) (fs : List ℕ)
    → u ≢ t
    → ((g : ℕ) → Memᴰ g fs → new ≢ g)
    → first_named (update names new t) u (fs ++ (new ∷ [])) ≡ first_named names u fs
insert_others names t u new [] ne h = elim (Bool-cases (text_eq t u)) [
  | inl p ↦ absurd (ne (sym ((text_eq_iff t u).0 p)))
  | inr p ↦ rw (update_self names new t, p) refl
]
insert_others names t u new (f ∷ fs) ne h =
    rw
      (
        update_other names new f t (h f (Memᴰ.head refl)),
        insert_others names t u new fs ne (λ g i. h g (Memᴰ.tail i)),
      )
      refl

pub flat_in :
    (bodies : ℕ → List ℕ) (fs : List ℕ) (g b : ℕ)
    → Memᴰ g fs
    → Memᴰ b (bodies g)
    → Memᴰ b (flat_map bodies fs)
flat_in bodies [] g b h k = absurd (Memᴰ.not-nil h)
flat_in bodies (f ∷ fs) g b h k = elim ((Memᴰ-cons g f fs).0 h) [
  | inl p ↦ Memᴰ.append_left _ (subst (λ x. Memᴰ b (bodies x)) p k)
  | inr later ↦ Memᴰ.append_right (bodies f) (flat_in bodies fs g b later k)
]

-- `get_or_insert`, by whether the name is found
pub insert_same :
    (m : Program) (t : Text) (o : Option ℕ)
    → ((get_or_insert m t o).0.code ≡ m.code) × ((get_or_insert m t o).0.globals ≡ m.globals)
insert_same m t none = (refl, refl)
insert_same m t (some f) = (refl, refl)

pub insert_lookup :
    (m : Program) (t u : Text) (o : Option ℕ)
    → u ≢ t
    → first_named (get_or_insert m t o).0.names u (get_or_insert m t o).0.ids
      ≡ first_named m.names u m.ids
insert_lookup m t u none ne =
    insert_others m.names t u (fresh m.ids) m.ids ne (λ g i. fresh_apart m.ids g i)
insert_lookup m t u (some f) ne = refl

pub insert_names :
    (m : Program) (t u : Text) (o : Option ℕ)
    → u ≢ t
    → has_name (get_or_insert m t o).0 u ≡ has_name m u
insert_names m t u none ne = rw (insert_lookup m t u none ne) refl
insert_names m t u (some f) ne = refl

pub before_same :
    (m : Program) (o : Op) (p : Option Instr) → has_name (put_before m o p).0 ≡ has_name m
before_same m o none = refl
before_same m o (some i) = refl

abbrev Added : Program → Text → Program × Option ℕ → Type 0
Added m t r =
    (f : ℕ) × (r.1 ≡ some f)
    × (r.0.ids ≡ m.ids ++ (f ∷ []))
    × (r.0.names f ≡ t)
    × (r.0.bodies f ≡ [])
    × ((g : ℕ) → Memᴰ g m.ids → (r.0.names g ≡ m.names g) × (r.0.bodies g ≡ m.bodies g))

pub insert_new : (m : Program) (t : Text) → Added m t (get_or_insert m t none)
insert_new m t = (
  fresh m.ids,
  refl,
  refl,
  update_self m.names (fresh m.ids) t,
  update_self m.bodies (fresh m.ids) [],
  λ g i. (
    update_other m.names (fresh m.ids) g t (fresh_apart m.ids g i),
    update_other m.bodies (fresh m.ids) g [] (fresh_apart m.ids g i),
  ),
)

pub put_last_own :
    (m : Program) (o : Op) (b : ℕ)
    → map (place b) ((put_last m o b).0.code b)
      ≡ map (place b) (m.code b) ++ ((put_last m o b).1 ∷ [])
put_last_own m o b =
    ap (map (place b)) (update_self m.code b _)
    ∙ map-append (place b) (m.code b) (made b o ∷ [])
    ∙ ap (λ n. map (place b) (m.code b) ++ (n ∷ [])) (place-made b o)

abbrev pub editor_setups : IsSetupEditor editor editor_laws
editor_setups = record {
  block_eq = ℕ_discrete;
  found = λ m t f h. first_named_found m.names t m.ids f h;
  counter_keeps = λ m t n. record {
    functions = refl;
    fn_name = refl;
    blocks = refl;
    insts = refl;
    terminators = refl;
    get_function = refl;
  };
  has_name = has_name;
  free = free_names;
  counter_found = λ m t n h. add_found t _ m.globals (free_names m t h).1;
  counter_names =
      λ m t u n h ne. rw (add_misses t u (length m.globals + length m.texts) m.globals ne) refl;
  text_keeps = λ m t name. record {
    functions = refl;
    fn_name = refl;
    blocks = refl;
    insts = refl;
    terminators = refl;
    get_function = refl;
  };
  text_globals = λ m t name u g h. h;
  has_type = λ f ty. true;
  inserted_old = λ m t ty no_unwind f h typed. ap (get_or_insert m t) h;
  inserted_new = λ m t ty no_unwind h.
      subst (λ o. Added m t (get_or_insert m t o)) (sym (free_names m t h).0) (insert_new m t);
  inserted_code = λ m t ty no_unwind.
      let (code, globals) = insert_same m t (first_named m.names t m.ids) in
      (ap (λ x b. map (place b) (x b)) code, refl, ap (λ gs u. find_global u gs) globals);
  inserted_others = λ m t u ty no_unwind ne. insert_lookup m t u (first_named m.names t m.ids) ne;
  inserted_names = λ m t u ty no_unwind ne. insert_names m t u (first_named m.names t m.ids) ne;
  block_module = λ m t f. (refl, refl, refl, refl);
  block_names = λ m t f. refl;
  block_own = λ m t f. update_self m.bodies f _;
  block_other = λ m t f g ne. update_other m.bodies f g _ ne;
  block_fresh =
      λ m t f g i h. fresh_apart (flat_map m.bodies m.ids) _ (flat_in m.bodies m.ids g _ i h) refl;
  block_empty = λ m t f. ap (map (place _)) (update_self m.code _ []);
  block_elsewhere = λ m t f c ne. (ap (map (place c)) (update_other m.code _ c [] ne), refl);
  before_functions = λ m o n p.
      let (names, bodies, globals, ids) = same_before m o p in
      (ids, ap₂ (λ ns is u. first_named ns u is) names ids);
  before_names = λ m o n p. before_same m o p;
  before_first = λ m o n b i is h once. first_put m o b i is h once;
  before_elsewhere = λ m o n b c i is h ne. elsewhere_put m o b c i is h ne;
  at_end_module = λ m o n b. (refl, refl, refl, refl, refl);
  at_end_created = λ m o n b. (operation-made b o, put_last_own m o b);
  at_end_elsewhere = λ m o n b c ne. (ap (map (place c)) (update_other m.code b c _ ne), refl);
}
