-- ===== src/Misc/Main/Sample.antt =====
-- Functions that are as documented, in place of LLVM's, with a file system without the file.
use snippets_llvm.Base.{
  ℕ, zero, suc, Bool, true, false, ◌&&◌, some, List, [], ◌∷◌, ◌++◌, ◌≡◌, refl, Text, codes, length,
  get_elem?,
}
use snippets_llvm.Outcome.{Outcome, ok, fault, undefined}
use snippets_llvm.Streams.{decimal}
use snippets_llvm.Misc.Ints.Tests.{list_errors}
use snippets_llvm.Misc.Digests.{Files, error}
use snippets_llvm.Misc.Formats.{Formatter}
use snippets_llvm.Misc.StringRefs.{StringRefs}
use snippets_llvm.Misc.StringRefs.Splits.{first_split, first_split-IsSplit}
use snippets_llvm.Misc.Twines.{Twines}
use snippets_llvm.Misc.Twines.Reads.{IsTwine, IsReadable}
use snippets_llvm.Misc.Arrays.{zip_or}
use snippets_llvm.Misc.Switch.Tests.{first_match}
use snippets_llvm.Misc.Shapes.Tests.{whole}
use snippets_llvm.Misc.People.{YamlIo}
use snippets_llvm.Misc.Documents.{Output}
use snippets_llvm.Misc.Documents.Sequences.{IsOutput}
use snippets_llvm.Misc.Main.{Libraries}
use snippets_llvm.Misc.Main.Returns.{IsDocumented}

abbrev pub no_files : Files
no_files = record {
  ErrorCode = ℕ;
  message = λ e. codes "No such file or directory";
  get_file = λ fname. error 2;
  Md5 = Text;
  Md5Result = Text;
  fresh = [];
  update = λ s m. m ++ s;
  final = λ m. m;
  digest = λ r. r;
}

abbrev pub plain_formatter : Formatter
plain_formatter = record { formatv = λ format f. f []; show_char = λ c style. c ∷ [] }

abbrev pub first_splits : StringRefs
first_splits = record {
  split_char = λ s c. first_split (c ∷ []) s;
  split = λ s sep. first_split sep s;
  hash_value = length;
}

-- A twine as its text, whether it is one part, and whether what it points to is there.
abbrev pub Rope : Type 0
Rope = Text × Bool × Bool

abbrev pub read : Rope → Outcome Text
read (t, one, true) = ok t
read (t, one, false) = fault undefined

-- `kept`: whether temporaries are still there behind their statement.
abbrev pub ropes : Bool → Twines
ropes kept = record {
  Twine = Rope;
  empty = ([], true, true);
  of_string_ref = λ s. (s, true, true);
  of_string = λ s. (s, true, true);
  of_char = λ c. (c ∷ [], false, true);
  of_unsigned = λ n. (decimal n, false, true);
  of_small_vector = λ s. (s, true, true);
  concat = λ (t, _, a) (u, _, b). (t ++ u, false, a && b);
  of_chars_and_temporary = λ t u. (t ++ u, false, kept);
  of_temporary_and_chars = λ t u. (t ++ u, false, kept);
  print_repr = read;
  is_single_string_ref = λ t. t.1;
  get_single_string_ref = read;
}

IsReadable-there : (kept : Bool) (t : Text) (one : Bool) → IsReadable (ropes kept) (t, one, true)
IsReadable-there kept t one = record { repr = t; repr_eq = refl; single = λ h. (t, refl) }

there_of_readable : (kept : Bool) (t : Rope) → IsReadable (ropes kept) t → t.2 ≡ true
there_of_readable kept (t, one, true) r = refl
there_of_readable kept (t, one, false) r = absurd (cc r.repr_eq)

ropes-IsTwine : (kept : Bool) → IsTwine (ropes kept)
ropes-IsTwine kept = record {
  empty-IsReadable = IsReadable-there kept [] true;
  of_string_ref-IsReadable = λ s. IsReadable-there kept s true;
  of_string-IsReadable = λ s. IsReadable-there kept s true;
  of_char-IsReadable = λ c. IsReadable-there kept (c ∷ []) false;
  of_unsigned-IsReadable = λ n. IsReadable-there kept (decimal n) false;
  of_small_vector-IsReadable = λ s. IsReadable-there kept s true;
  concat-IsReadable = λ t u r q.
      rw (there_of_readable kept t r, there_of_readable kept u q)
        (IsReadable-there kept (t.0 ++ u.0) false);
}

-- A document as the text so far.
abbrev pub text_io : YamlIo
text_io = record {
  Io = Text;
  map_required = λ key value io. io ++ (key ++ (codes ": " ++ (value ++ codes "\n")));
  map_optional = λ key value io. io ++ (key ++ (codes ": " ++ (decimal value ++ codes "\n")));
}

abbrev pub write_from : ℕ → (ℕ → Outcome (Text → Text)) → Text → Outcome Text
write_from zero at io = ok io
write_from (suc n) at io = elim (at 0) [
  | ok f ↦ write_from n (λ i. at (suc i)) (f io)
  | fault e ↦ fault e
]

abbrev pub after_steps : List (Text → Text) → Text → Text
after_steps [] io = io
after_steps (f ∷ fs) io = after_steps fs (f io)

abbrev pub text_output : Output text_io
text_output = record { write_sequence = λ n at. write_from n at [] }

pub write_from-steps :
    (steps : List (Text → Text)) (at : ℕ → Outcome (Text → Text)) (io : Text)
    → ((i : ℕ) (step : Text → Text) → get_elem? steps i ≡ some step → at i ≡ ok step)
    → write_from (length steps) at io ≡ ok (after_steps steps io)
write_from-steps [] at io h = refl
write_from-steps (f ∷ fs) at io h =
    rw (h 0 f refl, write_from) (write_from-steps fs (λ i. at (suc i)) (f io) (λ i. h (suc i)))

abbrev pub text_output-IsOutput : IsOutput text_io text_output
text_output-IsOutput = record {
  document = λ steps. after_steps steps [];
  in_order = λ steps at h. write_from-steps steps at [] h;
}

abbrev pub sample : Bool → Libraries
sample kept = record {
  pretty_function = λ name. name;
  errors = list_errors;
  files = no_files;
  formatter = plain_formatter;
  string_refs = first_splits;
  twines = ropes kept;
  array_refs = record {
    ArrayRef = List ℕ;
    of_array = λ xs. xs;
    of_vector = λ xs. xs;
    of_initializer = λ xs. xs;
    size = length;
  };
  string_switch = first_match;
  packed_vectors = record {
    PackedVector = List ℕ;
    empty = [];
    push_back = λ x v. v ++ (x ∷ []);
    or_assign = zip_or;
  };
  doubles = whole;
  yaml = text_io;
  output = text_output;
}

pub sample-IsDocumented : (kept : Bool) → IsDocumented (sample kept)
sample-IsDocumented kept = record {
  formatter = record { plain = λ f. refl };
  string_refs = record {
    by_text = λ s sep. first_split-IsSplit sep s;
    by_char = λ s c. first_split-IsSplit (c ∷ []) s;
  };
  twines = ropes-IsTwine kept;
  array_refs = record {
    size-of_array = λ xs. refl;
    size-of_vector = λ xs. refl;
    size-of_initializer = λ xs. refl;
  };
  output = text_output-IsOutput;
}
