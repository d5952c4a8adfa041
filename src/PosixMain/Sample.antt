-- ===== src/PosixMain/Sample.antt =====
-- Small modules that meet the laws: functions are numbers, of which a module lists some.
use mathlib.Core.List.{Memᴰ}
use mathlib.Core.List.Memᴰ
use mathlib.Core.Logic.{ite, if_pos, if_neg}
use native.Mathlib.Decide.{ℕ_discrete}
use snippets_llvm.Base.{
  ℕ, Bool, true, false, Option, none, some, Option-cases, if◌then◌else◌, ap, ◌≡◌, ◌≢◌, ◌↔◌, inl,
  inr, refl, sym, ◌∙◌, List, [], ◌∷◌, ◌++◌, Text, codes, Memᴰ-cons,
}
use snippets_llvm.Outcome.{ok, fault, assertion}
use snippets_llvm.Llvm.Sample.{SampleTy, sample_ir, i32_t, ptr_t}
use snippets_llvm.Base.Names.{
  update, first_named, fresh, update_self, update_other, first_named_found, first_named_missing,
  fresh_new, fresh_apart,
}
use snippets_llvm.PosixMain.{MainEditor}
use snippets_llvm.PosixMain.Laws.{Kept, IsNamed, IsMainEditor, IsMainType}

pub record Functions : Type 0 where
  pub ids : List ℕ
  pub names : ℕ → Text
  pub types : ℕ → List SampleTy
  pub links : ℕ → ℕ
  pub attrs : ℕ → ℕ
  pub bodies : ℕ → List ℕ
  pub uses : ℕ → Bool

abbrev pub without : ℕ → List ℕ → List ℕ
without k [] = []
without k (f ∷ fs) = let rest = without k fs in ite (ℕ_discrete f k) rest (f ∷ rest)

abbrev pub create : Functions → List SampleTy → ℕ → Text → Functions × ℕ
create m ts l t =
    let new = fresh m.ids in
    (
      record {
        ids = new ∷ m.ids;
        names = update m.names new t;
        types = update m.types new ts;
        links = update m.links new l;
        attrs = update m.attrs new 0;
        bodies = update m.bodies new [];
        uses = update m.uses new false;
      },
      new,
    )

abbrev pub splice_blocks : Functions → ℕ → ℕ → Functions
splice_blocks m to from = record m {
  bodies = update (update m.bodies from []) to (m.bodies from ++ m.bodies to);
}

abbrev pub without_function : Functions → ℕ → Functions
without_function m f = record m { ids = without f m.ids }

abbrev pub is_found : Option ℕ → Bool
is_found none = false
is_found (some n) = true

abbrev pub editor : MainEditor sample_ir
editor = record {
  Module = Functions;
  Fn = ℕ;
  Linkage = ℕ;
  Attributes = ℕ;
  Block = ℕ;
  functions = λ m. m.ids;
  fn_name = λ m. m.names;
  params = λ m. m.types;
  linkage = λ m. m.links;
  attributes = λ m. m.attrs;
  blocks = λ m. m.bodies;
  get_function = λ m t. first_named m.names t m.ids;
  module_identifier = λ m. codes "sample";
  bit_width = λ t. 8;
  set_name = λ m f t. record m { names = update m.names f t };
  int_ty = i32_t;
  argv_ty = ptr_t (ptr_t i32_t);
  create_function = create;
  set_attributes = λ m f a. record m { attrs = update m.attrs f a };
  splice = splice_blocks;
  erase_from_parent = λ m f. if m.uses f then fault assertion else ok (without_function m f);
}

pub without_iff : (k : ℕ) (fs : List ℕ) (g : ℕ) → Memᴰ g (without k fs) ↔ (Memᴰ g fs × (g ≢ k))
without_iff k [] g = (λ m. absurd (Memᴰ.not-nil m), λ p. p.0)
without_iff k (f ∷ fs) g = elim (ℕ_discrete f k) [
  | yes e ↦ rw (if_pos (ℕ_discrete f k) e) (
    λ m. let (h, ne) = (without_iff k fs g).0 m in (Memᴰ.tail h, ne),
    λ (h, ne). elim ((Memᴰ-cons g f fs).0 h) [
      | inl p ↦ absurd (ne (p ∙ e))
      | inr later ↦ (without_iff k fs g).1 (later, ne)
    ],
  )
  | no other ↦ rw (if_neg (ℕ_discrete f k) other) (
    λ m. elim ((Memᴰ-cons g f (without k fs)).0 m) [
      | inl p ↦ (Memᴰ.head p, λ q. other (sym p ∙ q))
      | inr later ↦ let (h, ne) = (without_iff k fs g).0 later in (Memᴰ.tail h, ne)
    ],
    λ (h, ne). elim ((Memᴰ-cons g f fs).0 h) [
      | inl p ↦ Memᴰ.head p
      | inr later ↦ Memᴰ.tail ((without_iff k fs g).1 (later, ne))
    ],
  )
]

pub create-Kept :
    (m : Functions) (ts : List SampleTy) (l : ℕ) (t : Text) (g : ℕ)
    → Memᴰ g m.ids
    → ((create m ts l t).0.names g ≡ m.names g) × Kept sample_ir editor m (create m ts l t).0 g
create-Kept m ts l t g h =
    let apart = fresh_apart m.ids g h in
    (
      update_other m.names (fresh m.ids) g t apart,
      record {
        params = update_other m.types (fresh m.ids) g ts apart;
        linkage = update_other m.links (fresh m.ids) g l apart;
        attributes = update_other m.attrs (fresh m.ids) g 0 apart;
        blocks = update_other m.bodies (fresh m.ids) g [] apart;
      },
    )

pub create_name : (m : Functions) (t : Text) → update m.names (fresh m.ids) t (fresh m.ids) ≡ t
create_name m t = update_self m.names (fresh m.ids) t

pub splice-Kept :
    (m : Functions) (to from g : ℕ)
    → to ≢ g
    → from ≢ g
    → Kept sample_ir editor m (splice_blocks m to from) g
splice-Kept m to from g a b = record {
  params = refl;
  linkage = refl;
  attributes = refl;
  blocks =
      update_other (update m.bodies from []) to g (m.bodies from ++ m.bodies to) a
      ∙ update_other m.bodies from g [] b;
}

-- Behind a renaming nothing has the old name.
pub frees :
    (m : Functions) (f : ℕ) (t u : Text)
    → IsNamed sample_ir editor m
    → first_named m.names u m.ids ≡ some f
    → u ≢ t
    → is_found (first_named (update m.names f t) u m.ids) ≡ false
frees m f t u named is_f ne = elim (Option-cases (first_named (update m.names f t) u m.ids)) [
  | inl e ↦ rw e refl
  | inr (g, e) ↦
      let (there, name) = first_named_found (update m.names f t) u m.ids g e in
      let (old, old_name) = first_named_found m.names u m.ids f is_f in
      elim (ℕ_discrete f g) [
        | yes p ↦ absurd (ne (sym name ∙ ap (update m.names f t) (sym p) ∙ update_self m.names f t))
        | no other ↦
            absurd
              (other (named f g old there (old_name ∙ sym name ∙ update_other m.names f g t other)))
      ]
]

abbrev pub editor-IsMainEditor : IsMainEditor sample_ir editor
editor-IsMainEditor = record {
  found = λ m t f h. first_named_found m.names t m.ids f h;
  missing = λ m t f h i. first_named_missing m.names t m.ids f h i;
  rename_functions = λ m f t. refl;
  has_name = λ m t. is_found (first_named m.names t m.ids);
  is_used = λ m f. m.uses f;
  rename_frees = λ m f t u named is_f free ne. frees m f t u named is_f ne;
  rename_used = λ m f g t. refl;
  rename_other = λ m f g t ne. update_other m.names f g t ne;
  rename_kept =
      λ m f g t. record { params = refl; linkage = refl; attributes = refl; blocks = refl };
  create_new = λ m ts l t. fresh_new m.ids;
  create_functions = λ m ts l t g. Memᴰ-cons g (fresh m.ids) m.ids;
  create_self = λ m ts l t. (
    update_self m.types (fresh m.ids) ts,
    update_self m.links (fresh m.ids) l,
    update_self m.bodies (fresh m.ids) [],
  );
  create_name = λ m ts l t free. create_name m t;
  create_other = λ m ts l t g h. create-Kept m ts l t g h;
  create_used = λ m ts l t g h. update_other m.uses (fresh m.ids) g false (fresh_apart m.ids g h);
  set_functions = λ m f a. refl;
  set_name_kept = λ m f g a. refl;
  set_self = λ m f a. (refl, refl, update_self m.attrs f a, refl);
  set_other = λ m f g a ne. record {
    params = refl;
    linkage = refl;
    attributes = update_other m.attrs f g a ne;
    blocks = refl;
  };
  set_used = λ m f g a. refl;
  splice_functions = λ m to from. refl;
  splice_name = λ m to from g. refl;
  splice_self = λ m to from ne.
      (refl, refl, refl, update_self (update m.bodies from []) to (m.bodies from ++ m.bodies to));
  splice_other = λ m to from g a b. splice-Kept m to from g a b;
  splice_from = λ m to from ne.
      update_other (update m.bodies from []) to from _ ne ∙ update_self m.bodies from [];
  splice_used = λ m to from g. refl;
  erased = without_function;
  erase_unused = λ m f u. rw u refl;
  erase_used = λ m f b u. rw u refl;
  erase_functions = λ m f g. without_iff f m.ids g;
  erase_other = λ m f g ne.
      (refl, record { params = refl; linkage = refl; attributes = refl; blocks = refl });
}

pub main_type : IsMainType sample_ir editor
main_type = record {
  int_is = refl;
  char_ptr = ptr_t i32_t;
  char = i32_t;
  argv_is = refl;
  argv_pointee = refl;
  char_ptr_is = refl;
  char_ptr_pointee = refl;
  char_is = refl;
  char_width = refl;
}
