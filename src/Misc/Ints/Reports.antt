-- ===== src/Misc/Ints/Reports.antt =====
-- What `test_err` reports.
use mathlib.Core.List.{append_assoc, append-nil}
use mathlib.Core.Path.{ap₂}
use snippets_llvm.Base.{
  ◌⊎◌, inl, inr, true, false, List, [], ◌∷◌, ◌++◌, ◌≡◌, refl, sym, ap, ◌∙◌, Text, codes, flat_map,
  map,
}
use snippets_llvm.Base.Int.{ℤ, InRange}
use snippets_llvm.Streams.{int_bound, Extracted, failed, got, extract_int, show_int}
use snippets_llvm.Streams.Scans.{Spells}
use snippets_llvm.Misc.Ints.{
  Errors, value, error, c_str, of_extracted, to_int, parse_args, test_err,
}
use snippets_llvm.Misc.Ints.Accepts.{to_int_iff}

-- An error holds a list of messages, which joining appends; a log writes them in order, each on a
-- line, behind the banner, and nothing if there are none.
pub record IsErrors (api : Errors) : Type 0 where
  pub messages : api.Error → List Text
  pub messages_success : messages api.success ≡ []
  pub messages_string_error : (t : Text) → messages (api.string_error t) ≡ t ∷ []
  pub messages_join : (x y : api.Error) → messages (api.join x y) ≡ messages x ++ messages y
  pub log_none : (x : api.Error) (banner : Text) → messages x ≡ [] → api.log_all x banner ≡ []
  pub log_some :
      (x : api.Error) (banner t : Text) (ts : List Text)
      → messages x ≡ t ∷ ts
      → api.log_all x banner ≡ banner ++ flat_map (λ m. m ++ codes "\n") (t ∷ ts)

-- The arguments fall into those that spell an `int`, with their numbers, and the others.
pub data Sorts : List Text → List ℤ → List Text → Type 0 where
  done : Sorts [] [] []
  int :
      {args : List Text} {ints : List ℤ} {others : List Text} (a : Text) (z : ℤ)
      → Spells a z
      → InRange int_bound z
      → Sorts args ints others
      → Sorts (a ∷ args) (z ∷ ints) others
  other :
      {args : List Text} {ints : List ℤ} {others : List Text} (a : Text)
      → ((z : ℤ) → Spells a z → ¬ InRange int_bound z)
      → Sorts args ints others
      → Sorts (a ∷ args) ints (a ∷ others)

-- The message about an argument: whether a number stands in front decides which.
abbrev pub complaint_about : Text → Extracted → Text
complaint_about a failed = codes "Failed to parse int: " ++ c_str a
complaint_about a (got z eof) = codes "Failed to parse full string as int: " ++ c_str a

abbrev pub complaint : Text → Text
complaint a = complaint_about a (extract_int a)

-- A number as it is listed.
abbrev pub listed : ℤ → Text
listed z = show_int z ++ codes " "

-- What is logged of some messages.
abbrev pub logged : List Text → Text
logged [] = []
logged (t ∷ ts) = codes "\nErrors:\n" ++ flat_map (λ m. m ++ codes "\n") (t ∷ ts)

module _ (api : Errors) (laws : IsErrors api) where
  open api use {Error, success, log_all}
  open laws use {messages}

  -- How one argument ends.
  to_int_ends :
      (a : Text)
      → ((z : ℤ) × (to_int api a true ≡ value z))
        ⊎ ((x : Error) × (to_int api a true ≡ error x) × (messages x ≡ complaint a ∷ []))
  unfolding to_int
  to_int_ends a = go (extract_int a)
    where
      go :
          (x : Extracted)
          → ((z : ℤ) × (of_extracted api a true x ≡ value z))
            ⊎ ((e : Error) × (of_extracted api a true x ≡ error e)
                × (messages e ≡ complaint_about a x ∷ []))
      go failed = inr (_, refl, laws.messages_string_error _)
      go (got z true) = inl (z, refl)
      go (got z false) = inr (_, refl, laws.messages_string_error _)

  parse_args-Sorts :
      (args : List Text) (out : Text) (errs : Error)
      → (ints : List ℤ) × (others : List Text) × Sorts args ints others
        × ((parse_args api args out errs).0 ≡ out ++ flat_map listed ints)
        × (messages (parse_args api args out errs).1 ≡ messages errs ++ map complaint others)
  unfolding parse_args
  parse_args-Sorts [] out errs =
      ([], [], done, sym (append-nil out), sym (append-nil (messages errs)))
  parse_args-Sorts (a ∷ args) out errs = elim (to_int_ends a) [
    | inl (z, e) ↦
        let (ints, others, sorts, o, m) = parse_args-Sorts args (out ++ listed z) errs in
        let (spells, fits) = (to_int_iff api a z).0 e in
        (
          z ∷ ints,
          others,
          int a z spells fits sorts,
          rw (e, parse_args) (o ∙ append_assoc out (listed z) (flat_map listed ints)),
          rw (e, parse_args) m,
        )
    | inr (x, e, c) ↦
        let (ints, others, sorts, o, m) = parse_args-Sorts args out (api.join errs x) in
        (
          ints,
          a ∷ others,
          other a (λ z p fits. cc ((to_int_iff api a z).1 (p, fits), e)) sorts,
          rw (e, parse_args) o,
          rw (e, parse_args)
              (m
                ∙ ap (λ t. t ++ map complaint others)
                    (laws.messages_join errs x ∙ ap (λ t. messages errs ++ t) c)
                ∙ append_assoc (messages errs) (complaint a ∷ []) (map complaint others)),
        )
  ]

  log_all-logged :
      (x : Error) (ts : List Text) → messages x ≡ ts → log_all x (codes "\nErrors:\n") ≡ logged ts
  log_all-logged x [] h = laws.log_none x (codes "\nErrors:\n") h
  log_all-logged x (t ∷ ts) h = laws.log_some x (codes "\nErrors:\n") t ts h

  -- The arguments fall into those that spell an `int` and the others, in order: the numbers of the
  -- first are listed on `std::cout`, and for each of the others there is one message in the log.
  pub test_err_reports :
      (program : Text) (args : List Text)
      → (ints : List ℤ) × (others : List Text) × Sorts args ints others
        × (test_err api (program ∷ args) ≡ (
          (codes "Ints: " ++ flat_map listed ints) ++ (codes "\n" ++ codes "\n"),
          logged (map complaint others),
        ))
  unfolding test_err
  test_err_reports program args =
      let (ints, others, sorts, o, m) = parse_args-Sorts args (codes "Ints: ") success in
      let all = m ∙ ap (λ t. t ++ map complaint others) laws.messages_success in
      (
        ints,
        others,
        sorts,
        ap₂ (λ x y. (x ++ (codes "\n" ++ codes "\n"), y)) o
            (log_all-logged _ (map complaint others) all),
      )
