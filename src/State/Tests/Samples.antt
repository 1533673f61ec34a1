-- ===== src/State/Tests/Samples.antt =====
-- A clock, and parts and rows to run the store on.
use partforge.Base.{
  Text, ℕ, ◌≡◌, refl, inl, inr, [], ◌∷◌, Bool, true, false, ◌&&◌, ◌==◌, Option, some, none, arith,
  Bool-cases, if◌then◌else◌, codes, is_blank,
}
use partforge.State.Part.{Part, Clock, IsLawful, Status, no_compact_progress, no_rewrite_progress}
use partforge.State.Row.{Row, row_at}
use partforge.State.Table.{Table}
use partforge.State.Rewrite.{Output}

abbrev pub stamp : ℕ → Text
stamp t = 84 ∷ t ∷ 84 ∷ []

abbrev pub parse_stamp : Text → Option ℕ
parse_stamp [] = none
parse_stamp (a ∷ []) = none
parse_stamp (a ∷ b ∷ []) = none
parse_stamp (a ∷ b ∷ c ∷ []) = if a == 84 && c == 84 then some b else none
parse_stamp (a ∷ b ∷ c ∷ d ∷ s) = none

abbrev pub clock : Clock
clock = record { format = stamp; parse = parse_stamp }

stamp_filled : (t : ℕ) → is_blank (stamp t) ≡ false
unfolding is_blank
stamp_filled t = ground arith

parse_blank_stamp : (s : Text) → is_blank s ≡ true → parse_stamp s ≡ none
parse_blank_stamp [] h = refl
parse_blank_stamp (a ∷ []) h = refl
parse_blank_stamp (a ∷ b ∷ []) h = refl
parse_blank_stamp (a ∷ b ∷ c ∷ []) h = elim (Bool-cases (a == 84 && c == 84)) [
  | inl e ↦
      let (p, q) : (a ≡ 84) × (c ≡ 84) = ground arith in
      let blank : is_blank (stamp b) ≡ true = rw (p, q) at h in absurd (cc (blank, stamp_filled b))
  | inr e ↦ rw e refl
]
parse_blank_stamp (a ∷ b ∷ c ∷ d ∷ s) h = refl

pub clock-IsLawful : IsLawful clock
clock-IsLawful = record {
  format_filled = stamp_filled;
  parse-format = λ t. refl;
  parse_blank = parse_blank_stamp;
}

abbrev pub ready_part : Part
ready_part = record {
  job_id = codes "j";
  job_name = [];
  part_id = codes "p";
  status = Status.ready;
  bucket = codes "b";
  source_key = codes "s";
  finished_key = codes "f";
  source_job_id = [];
  source_part_id = [];
  created_at = stamp 1;
  updated_at = stamp 1;
  started_at = [];
  finished_at = [];
  compact_ready_at = [];
  compacting_at = [];
  superseded_at = [];
  importing_at = [];
  imported_at = [];
  failed_at = [];
  worker_id = [];
  attempts = 0;
  error = [];
  click_house_build = [];
  empty_output = false;
  source_artifact_bytes = 7;
  destination_database = [];
  destination_table = [];
  destination_schema = [];
  insert_select = [];
  compact_generation = 0;
  compact_input_part_ids = [];
  compact_cooldown_until = [];
  superseded_by = [];
  compact = no_compact_progress;
  rewrite = no_rewrite_progress;
}

abbrev pub larger_part : Part
larger_part = record ready_part { part_id = codes "q"; source_artifact_bytes = 9 }

abbrev pub ready_table : Table
ready_table = row_at ready_part none none ∷ row_at larger_part none none ∷ []

abbrev pub worker : Text
worker = codes "w"

abbrev pub output : Output
output = record {
  finished_key = codes "g";
  database = codes "d";
  table = codes "t";
  schema = codes "c";
  stats = record { count = 2; rows = 5; bytes = 11 };
  counts = (codes "2024", 2) ∷ ([], 3) ∷ [];
}

-- An artifact that is ready to compact.
abbrev pub artifact : Text → Part
artifact id = record ready_part {
  part_id = id;
  status = Status.compact_ready;
  compact_ready_at = stamp 2;
  destination_database = codes "d";
  destination_table = codes "t";
  destination_schema = codes "c";
  rewrite = record no_rewrite_progress {
    active_part_count = 1;
    active_part_rows = 5;
    active_part_bytes = 4;
    partition_counts = (codes "x", 1) ∷ [];
  };
}

abbrev pub artifact_a : Part
artifact_a = artifact (codes "a")

abbrev pub artifact_b : Part
artifact_b = artifact (codes "k")

abbrev pub artifact_table : Table
artifact_table = row_at artifact_a none (some 2) ∷ row_at artifact_b none (some 2) ∷ []

abbrev pub unlocked : Row → Bool
unlocked r = false
