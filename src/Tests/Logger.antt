-- ===== src/Tests/Logger.antt =====
-- A writer at the turn of an hour, with a disk that is full at one time.
use realtime_ingestion.Base.{
  ℕ, ◌≡◌, refl, ap, sym, Bool, true, false, Option, none, some, List, [], ◌∷◌, Bytes, length,
  take_all, arith,
}
use realtime_ingestion.Text.{codes, to_string, decimal, trim_zeros}
use realtime_ingestion.Logger.{
  PathBuf, FileSystem, Hour, LocalTime, HourlyWriter, log_path, is_other, of_hour, open_file,
  open_inner, replace, rotate, write,
}
use realtime_ingestion.Logger.Hours.{appended, FileLaws, IsConsistent, IsTurned, write-IsTurned}

-- The hour of the day, whether the disk is full, and what was written where.
record Disk : Type 0 where
  hour : ℕ
  full : Bool
  written : List (PathBuf × Bytes)

abbrev open_at : Bool → PathBuf → Option PathBuf
open_at true p = none
open_at false p = some p

abbrev fs : FileSystem Disk PathBuf
fs = record {
  create_dir_all = λ p d. (true, d);
  open_append = λ p d. (open_at d.full p, d);
  write = λ p bytes d. (some (length bytes), record d { written = (p, bytes) ∷ d.written });
  flush = λ p d. (true, d);
}

path_or : PathBuf → Option PathBuf → PathBuf
path_or p none = p
path_or p (some q) = q

fs-opened : (full : Bool) (p f : PathBuf) → open_at full p ≡ some f → f ≡ p
unfolding path_or
fs-opened true p f h = absurd (cc h)
fs-opened false p f h = sym (ap (path_or p) h)

abbrev laws : FileLaws fs
laws = record {
  path_of = λ f. f;
  content = λ d. d.written;
  opened = λ p d f h. fs-opened d.full p f h;
  create_dir_all = λ p d. refl;
  open_append = λ p d. refl;
  write = λ f buf d. ap (λ b. (f, b) ∷ d.written) (sym (take_all (length buf) buf (omega arith)));
}

abbrev at : ℕ → Hour
at h = record { year = 2026; month = 2; day = 3; hour = h }

abbrev time : LocalTime Disk
time = record { now = λ d. at d.hour }

abbrev nine : HourlyWriter PathBuf
nine = record {
  base = codes "log" ∷ [];
  inner = record { file = log_path (codes "log" ∷ []) (at 9); of = at 9 };
}

abbrev ten : Disk
ten = record { hour = 10; full = false; written = [] }

turned :
    (write fs time nine (1 ∷ []) ten).2.written
    ≡ ((codes "log" ∷ codes "2026" ∷ codes "2" ∷ codes "3" ∷ codes "10.log" ∷ []), 1 ∷ []) ∷ []
unfolding write rotate is_other open_inner open_file of_hour replace to_string decimal trim_zeros
turned = refl

kept :
    (write fs time nine (1 ∷ []) (record ten { full = true })).2.written
    ≡ ((codes "log" ∷ codes "2026" ∷ codes "2" ∷ codes "3" ∷ codes "9.log" ∷ []), 1 ∷ []) ∷ []
unfolding write rotate is_other open_inner open_file of_hour replace to_string decimal trim_zeros
kept = refl

write-IsTurned_example :
    IsConsistent fs laws (write fs time nine (1 ∷ []) ten).1
    × IsTurned fs laws time nine (write fs time nine (1 ∷ []) ten).1 ten
    × ((write fs time nine (1 ∷ []) ten).2.written
        ≡ appended
            (write fs time nine (1 ∷ []) ten).0
            (log_path nine.base (write fs time nine (1 ∷ []) ten).1.inner.of)
            (1 ∷ [])
            [])
write-IsTurned_example = write-IsTurned fs laws time nine (1 ∷ []) ten refl
