-- ===== src/Maildir/Laws.antt =====
-- What server/src/lib/maildir relies on of the calls of libc, by what the files hold and what was
-- written on the open streams, which reaches the file for certain only when the stream is closed,
-- and how a sequence of calls comes to its end.
use postman.Prelude.{ℕ, List, [], ◌++◌, ◌⊎◌, take, Option, some, true, ◌≡◌, ◌≢◌, refl}
use postman.Maildir.{FileSystem, Ending, fault, failed, done, Disk, and_then}

pub record IsFileSystem {D : Type 0} (fs : FileSystem D) : Type 0 where
  pub content : D → List ℕ → Option (List ℕ)
  pub stream : D → List ℕ → Option (List ℕ)
  pub create_makes :
      (p : List ℕ) (d : D) → (fs.create p d).0 ≡ true → stream (fs.create p d).1 p ≡ some []
  pub fwrite_adds :
      (p b t : List ℕ) (d : D)
      → stream d p ≡ some t
      → stream (fs.fwrite p b d).1 p ≡ some (t ++ take (fs.fwrite p b d).0 b)
  pub fclose_flushes :
      (p t : List ℕ) (d : D)
      → stream d p ≡ some t
      → (fs.fclose p d).0 ≡ true
      → content (fs.fclose p d).1 p ≡ some t
  pub rename_moves :
      (p q : List ℕ) (d : D) → (fs.rename p q d).0 ≡ 0 → content (fs.rename p q d).1 q ≡ content d p
  pub rename_fails :
      (p q r : List ℕ) (d : D)
      → (fs.rename p q d).0 ≢ 0
      → content (fs.rename p q d).1 r ≡ content d r

-- A call of fwrite with some bytes, from one state to the next, took a part of them, their front; none
-- is made for no bytes.
abbrev pub Took : {D : Type 0} → FileSystem D → List ℕ → List ℕ → List ℕ → D → D → Type 0
Took fs p b part d e =
    ((b ≡ []) × (part ≡ []) × (d ≡ e))
    ⊎ (((fs.fwrite p b d).0 ≢ 0) × (part ≡ take (fs.fwrite p b d).0 b) × ((fs.fwrite p b d).1 ≡ e))

-- The results of a sequence that is done.
pub and_then-done :
    {D A B : Type 0} (m : Ending D A) (f : A → Disk D B) (b : B) (e : D)
    → and_then m f ≡ done b e
    → (a : A) × (d : D) × (m ≡ done a d) × (f a d ≡ done b e)
and_then-done fault f b e h = absurd (cc h)
and_then-done (failed _ _ _) f b e h = absurd (cc h)
and_then-done (done a d) f b e h = (a, d, refl, h)

pub done_state : {D A : Type 0} {a b : A} {d e : D} → done a d ≡ done b e → d ≡ e
done_state h = cc

pub done_value : {D A : Type 0} {a b : A} {d e : D} → done a d ≡ done b e → a ≡ b
done_value h = cc
