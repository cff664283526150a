-- ===== src/Logger/Hours.antt =====
-- Which file a write of `HourlyWriter`, src/logger.rs, goes to.
use realtime_ingestion.Base.{
  ℕ, List, ◌∷◌, take, ap₂, ◌≡◌, refl, sym, ap, ◌∙◌, subst, Bool, true, false, Option, none, some,
  Bytes, ◌⊎◌, inl, inr, Bool-cases, Option-cases, arith, unwrap_or,
}
use realtime_ingestion.Logger.{
  PathBuf, FileSystem, Hour, LocalTime, Inner, HourlyWriter, directory, log_path, is_other,
  open_file, open_inner, new_writer, replace, rotate, write, of_hour, with_base,
}

Hour-equal :
    {s t : Hour} → s.year ≡ t.year → s.month ≡ t.month → s.day ≡ t.day → s.hour ≡ t.hour → s ≡ t
Hour-equal y m d h i = record { year = y i; month = m i; day = d i; hour = h i }

is_other-same : (s t : Hour) → is_other s t ≡ false → s ≡ t
unfolding is_other
is_other-same s t h = Hour-equal (ground arith) (ground arith) (ground arith) (ground arith)

-- What a write adds to the files, the latest first: the bytes that it says were written, and nothing
-- if it fails.
abbrev pub appended : Option ℕ → PathBuf → Bytes → List (PathBuf × Bytes) → List (PathBuf × Bytes)
appended none path buf content = content
appended (some n) path buf content = (path, take n buf) ∷ content

-- An open file has the path that it was opened with; a write goes to the file that it names, and
-- making a directory or opening a file writes nothing.
pub record FileLaws {W H : Type 0} (fs : FileSystem W H) : Type 0 where
  pub path_of : H → PathBuf
  pub content : W → List (PathBuf × Bytes)
  pub opened : (p : PathBuf) (w : W) (f : H) → (fs.open_append p w).0 ≡ some f → path_of f ≡ p
  pub create_dir_all : (p : PathBuf) (w : W) → content (fs.create_dir_all p w).1 ≡ content w
  pub open_append : (p : PathBuf) (w : W) → content (fs.open_append p w).1 ≡ content w
  pub write :
      (f : H) (buf : Bytes) (w : W)
      → content (fs.write f buf w).1 ≡ appended (fs.write f buf w).0 (path_of f) buf (content w)

module _ {W H : Type 0} (fs : FileSystem W H) (laws : FileLaws fs) where
  -- The file is that of the hour that goes with it.
  abbrev IsOf : PathBuf → Inner H → Type 0
  IsOf base i = laws.path_of i.file ≡ log_path base i.of

  abbrev pub IsConsistent : HourlyWriter H → Type 0
  IsConsistent l = IsOf l.base l.inner

  of_hour-IsOf :
      (base : PathBuf) (t : Hour) (o : Option H) (i : Inner H)
      → ((f : H) → o ≡ some f → laws.path_of f ≡ log_path base t)
      → of_hour t o ≡ some i
      → IsOf base i × (i.of ≡ t)
  unfolding of_hour
  of_hour-IsOf base t none i path h = absurd (cc h)
  of_hour-IsOf base t (some f) i path h =
      subst (λ (j : Inner H). IsOf base j × (j.of ≡ t)) (ap (λ o. unwrap_or o i) h)
        (path f refl, refl)

  open_file-IsOf :
      (base : PathBuf) (t : Hour) (r : Bool × W) (i : Inner H)
      → (open_file fs base t r).0 ≡ some i
      → IsOf base i × (i.of ≡ t)
  unfolding open_file
  open_file-IsOf base t (false, w) i h = absurd (cc h)
  open_file-IsOf base t (true, w) i h =
      of_hour-IsOf base t (fs.open_append (log_path base t) w).0 i
        (λ f e. laws.opened (log_path base t) w f e) h

  open_inner-IsOf :
      (base : PathBuf) (t : Hour) (w : W) (i : Inner H)
      → (open_inner fs base t w).0 ≡ some i
      → IsOf base i × (i.of ≡ t)
  unfolding open_inner
  open_inner-IsOf base t w i h = open_file-IsOf base t (fs.create_dir_all (directory base t) w) i h

  open_file-content :
      (base : PathBuf) (t : Hour) (r : Bool × W)
      → laws.content (open_file fs base t r).1 ≡ laws.content r.1
  unfolding open_file
  open_file-content base t (false, w) = refl
  open_file-content base t (true, w) = laws.open_append (log_path base t) w

  open_inner-content :
      (base : PathBuf) (t : Hour) (w : W) → laws.content (open_inner fs base t w).1 ≡ laws.content w
  unfolding open_inner
  open_inner-content base t w =
      open_file-content base t (fs.create_dir_all (directory base t) w)
      ∙ laws.create_dir_all (directory base t) w

  module _ (time : LocalTime W) where
    -- A new writer has the file of its hour open.
    pub new_writer-IsConsistent :
        (base : PathBuf) (w : W) (l : HourlyWriter H)
        → (new_writer fs time base w).0 ≡ some l
        → IsConsistent l
    unfolding new_writer with_base
    new_writer-IsConsistent base w l h = elim (Option-cases (open_inner fs base (time.now w) w).0) [
      | inl fails ↦ absurd (cc (ap (with_base base) (sym fails) ∙ h))
      | inr (i, there) ↦
          subst IsConsistent (ap (λ o. unwrap_or o l) (ap (with_base base) (sym there) ∙ h))
            (open_inner-IsOf base (time.now w) w i there).0
    ]

    -- The writer behind a rotation: it is that of the current hour, or the file of that hour could
    -- not be opened and the writer is the one before.
    abbrev pub IsTurned : HourlyWriter H → HourlyWriter H → W → Type 0
    IsTurned l l' w =
        (l'.inner.of ≡ time.now w) ⊎ ((l' ≡ l) × ((open_inner fs l.base (time.now w) w).0 ≡ none))

    rotate-IsTurned :
        (l : HourlyWriter H) (w : W)
        → IsConsistent l
        → IsConsistent (rotate fs time l w).0 × IsTurned l (rotate fs time l w).0 w
    unfolding rotate replace
    rotate-IsTurned l w c = elim (Bool-cases (is_other l.inner.of (time.now w))) [
      | inl other ↦ elim (Option-cases (open_inner fs l.base (time.now w) w).0) [
        | inl fails ↦ rw (other, fails) (c, inr (refl, refl))
        | inr (i, there) ↦
            let (path, hour) = open_inner-IsOf l.base (time.now w) w i there in
            rw (other, there) (path, inl hour)
      ]
      | inr same ↦ rw same (c, inl (is_other-same l.inner.of (time.now w) same))
    ]

    replace-base : (l : HourlyWriter H) (o : Option (Inner H)) → (replace fs time l o).base ≡ l.base
    unfolding replace
    replace-base l none = refl
    replace-base l (some i) = refl

    -- A rotation writes nothing, and leaves the base.
    rotate-content :
        (l : HourlyWriter H) (w : W)
        → (laws.content (rotate fs time l w).1 ≡ laws.content w)
          × ((rotate fs time l w).0.base ≡ l.base)
    unfolding rotate
    rotate-content l w = elim (Bool-cases (is_other l.inner.of (time.now w))) [
      | inl other ↦ rw other (
        open_inner-content l.base (time.now w) w,
        replace-base l (open_inner fs l.base (time.now w) w).0,
      )
      | inr same ↦ rw same (refl, refl)
    ]

    -- A writer whose file is that of its hour stays so by a write. The bytes that are written go
    -- once, to one file below the base: to that of the current hour, or, if that cannot be opened
    -- when the hour is another, to the file that was open before, which stays open.
    pub write-IsTurned :
        (l : HourlyWriter H) (buf : Bytes) (w : W)
        → IsConsistent l
        → IsConsistent (write fs time l buf w).1
          × IsTurned l (write fs time l buf w).1 w
          × (laws.content (write fs time l buf w).2
              ≡ appended
                  (write fs time l buf w).0
                  (log_path l.base (write fs time l buf w).1.inner.of)
                  buf
                  (laws.content w))
    unfolding write
    write-IsTurned l buf w c =
        let (kept, turned) = rotate-IsTurned l w c in
        let (same, base) = rotate-content l w in
        let l' = (rotate fs time l w).0 in
        (
          kept,
          turned,
          laws.write l'.inner.file buf (rotate fs time l w).1
              ∙ ap₂ (λ p x. appended (fs.write l'.inner.file buf (rotate fs time l w).1).0 p buf x)
                  (kept ∙ ap (λ b. log_path b l'.inner.of) base) same,
        )
