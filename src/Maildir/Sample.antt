-- ===== src/Maildir/Sample.antt =====
-- A disk to run the examples with: it stands in for the calls of libc, with streams that are not
-- buffered. A file is what a path maps to,
-- and every call succeeds.
use postman.Prelude.{
  ℕ, List, [], ◌∷◌, ◌++◌, length, Bool, true, false, Option, none, some, bytes_eq, if◌then◌else◌,
  ◌≡◌, refl, sym, ap, ◌∙◌, arith,
}
use postman.Text.Concat.{take-length}
use postman.Smtp.State.{bytes}
use postman.Maildir.{FileSystem}
use postman.Maildir.Laws.{IsFileSystem}

abbrev pub Files : Type 0
Files = List ℕ → Option (List ℕ)

abbrev pub put : Files → List ℕ → Option (List ℕ) → Files
put files p t q = if bytes_eq p q then t else files q

abbrev joined : Option (List ℕ) → List ℕ → Option (List ℕ)
joined none b = none
joined (some t) b = some (t ++ b)

abbrev there : Option (List ℕ) → Bool
there none = false
there (some _) = true

unfoldable pub disk : FileSystem Files
disk = record {
  opendir = λ p d. 0;
  mkdir = λ p d. (0, d);
  readable = λ p d. there (d p);
  create = λ p d. (true, put d p (some []));
  fwrite = λ p b d. (length b, put d p (joined (d p) b));
  fclose = λ p d. (true, d);
  rename = λ p q d. (0, put (put d p none) q (d p));
  file_name = λ d. (bytes "7_1", d);
  timestamp = λ d. bytes "7";
}

-- The same disk, but no directory is there and none can be made.
unfoldable pub read_only : FileSystem Files
unfolding disk
read_only = record disk { opendir = λ p d. 2; mkdir = λ p d. (30, d) }

same_path : (p : List ℕ) → bytes_eq p p ≡ true
same_path [] = refl
same_path (x ∷ p) = ground (arith, same_path p)

put-same : (files : Files) (p : List ℕ) (t : Option (List ℕ)) → put files p t p ≡ t
put-same files p t = rw (same_path p) refl

pub disk-IsFileSystem : IsFileSystem disk
unfolding disk
disk-IsFileSystem = record {
  content = λ d p. d p;
  stream = λ d p. d p;
  create_makes = λ p d h. put-same d p (some []);
  fwrite_adds = λ p b t d h.
      put-same d p (joined (d p) b)
      ∙ ap (λ o. joined o b) h
      ∙ ap (λ x. some (t ++ x)) (sym (take-length b));
  fclose_flushes = λ p t d h c. h;
  rename_moves = λ p q d h. put-same (put d p none) q (d p);
  rename_fails = λ p q r d h. absurd (h refl);
}
