-- ===== src/Logger.antt =====
-- `HourlyWriter` of src/logger.rs, over parameters for the file system and the local time. A path is
-- the list of its parts. The mutex is a writer at a time, and its poison is ignored by the code.
pub mod Hours
use realtime_ingestion.Base.{
  ℕ, Bool, true, false, not, ◌||◌, Option, none, some, List, [], ◌∷◌, ◌++◌, ◌==◌, if◌then◌else◌,
  Bytes,
}
use realtime_ingestion.Text.{Text, codes, to_string}

abbrev pub PathBuf : Type 0
PathBuf = List Text

-- `fs::create_dir_all` succeeds or not; a file is opened with `create` and `append`; a write gives
-- the number of bytes or an error, and a flush succeeds or not.
pub record FileSystem (W H : Type 0) : Type 0 where
  pub create_dir_all : PathBuf → W → Bool × W
  pub open_append : PathBuf → W → Option H × W
  pub write : H → Bytes → W → Option ℕ × W
  pub flush : H → W → Bool × W

-- The hour that `Local::now()` falls in; its year is not negative.
pub record Hour : Type 0 where
  pub year : ℕ
  pub month : ℕ
  pub day : ℕ
  pub hour : ℕ

pub record LocalTime (W : Type 0) : Type 0 where
  pub now : W → Hour

pub record Inner (H : Type 0) : Type 0 where
  pub file : H
  pub of : Hour

pub record HourlyWriter (H : Type 0) : Type 0 where
  pub base : PathBuf
  pub inner : Inner H

abbrev pub directory : PathBuf → Hour → PathBuf
directory base t = base ++ (to_string t.year ∷ to_string t.month ∷ to_string t.day ∷ [])

abbrev pub log_path : PathBuf → Hour → PathBuf
log_path base t = directory base t ++ (to_string t.hour ++ codes ".log") ∷ []

-- The test of `write`.
unfoldable pub is_other : Hour → Hour → Bool
is_other s t =
    not (s.year == t.year)
    || not (s.month == t.month)
    || not (s.day == t.day)
    || not (s.hour == t.hour)

-- `Ok(Self { ... })` behind a `?`.
unfoldable pub of_hour : {H : Type 0} → Hour → Option H → Option (Inner H)
of_hour t none = none
of_hour t (some f) = some (record { file = f; of = t })

unfoldable pub with_base : {H : Type 0} → PathBuf → Option (Inner H) → Option (HourlyWriter H)
with_base base none = none
with_base base (some i) = some (record { base = base; inner = i })

module _ {W H : Type 0} (fs : FileSystem W H) where
  -- The file of an hour, once its directory is there.
  unfoldable pub open_file : PathBuf → Hour → Bool × W → Option (Inner H) × W
  unfolding of_hour
  open_file base t (false, w) = (none, w)
  open_file base t (true, w) =
      let (file, w') = fs.open_append (log_path base t) w in (of_hour t file, w')

  -- `Inner::open`; `none` is an error.
  unfoldable pub open_inner : PathBuf → Hour → W → Option (Inner H) × W
  unfolding open_file
  open_inner base t w = open_file base t (fs.create_dir_all (directory base t) w)

  module _ (time : LocalTime W) where
    unfoldable pub new_writer : PathBuf → W → Option (HourlyWriter H) × W
    unfolding open_inner with_base
    new_writer base w =
        let (inner, w') = open_inner base (time.now w) w in (with_base base inner, w')

    -- `if let Ok(new_inner) = Inner::open(...)`
    unfoldable pub replace : HourlyWriter H → Option (Inner H) → HourlyWriter H
    replace l none = l
    replace l (some i) = record l { inner = i }

    -- The file that a write goes to.
    unfoldable pub rotate : HourlyWriter H → W → HourlyWriter H × W
    unfolding is_other open_inner replace
    rotate l w =
        let now = time.now w in
        let (inner, w') = open_inner l.base now w in
        if is_other l.inner.of now then (replace l inner, w') else (l, w)

    unfoldable pub write : HourlyWriter H → Bytes → W → Option ℕ × HourlyWriter H × W
    unfolding rotate
    write l buf w =
        let (l', w') = rotate l w in let (n, w'') = fs.write l'.inner.file buf w' in (n, l', w'')

    unfoldable pub flush : HourlyWriter H → W → Bool × W
    flush l w = fs.flush l.inner.file w
