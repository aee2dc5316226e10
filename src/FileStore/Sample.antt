-- ===== src/FileStore/Sample.antt =====
-- A concrete printer and parser of tasks, for the tests.
mod Formats
use Prim.Native.Char.{code}
use snerd_rust.Base.{
  ℕ, zero, suc, ◌≡◌, refl, ap, String, Bool, true, false, Option, none, some, List, [], ◌∷◌, arith,
  if◌then◌else◌, ℤ, pos, negsuc, ◌==◌, length, Option-cases, inl, inr,
}
use snerd_rust.Task.{Task, JobErrorReturn}
use snerd_rust.Task.Sample.{sample}
use snerd_rust.FileStore.{Serde, is_blank, is_printable, reloaded, reparsed, reread_or_none}
use snerd_rust.FileStore.Sample.Formats.{
  Format, pair, number, text, truth, integer, job_error_format, optional, listed,
}

-- The fields that are printed.
abbrev Fields : Type 0
Fields =
    String
    × (ℤ
        × (ℤ
            × (ℕ
                × (ℕ
                    × (String
                        × (String
                            × (Option String
                                × (Option JobErrorReturn
                                    × (Option String
                                        × (Option ℤ
                                            × (Option Bool
                                                × (Option ℕ
                                                    × (Option String
                                                        × (Option ℕ
                                                            × (ℕ
                                                            × (Option String
                                                            × (Option String
                                                            × (Option ℕ
                                                            × (Option String
                                                            × (Option
                                                            (List String)))))))))))))))))))))

fields_format : Format Fields
fields_format =
    (pair text (
      pair integer (
        pair integer (
          pair number (
            pair number (
              pair text (
                pair text (
                  pair (optional text) (
                    pair (optional job_error_format) (
                      pair (optional text) (
                        pair (optional integer) (
                          pair (optional truth) (
                            pair (optional number) (
                              pair (optional text) (
                                pair (optional number) (
                                  pair number (
                                    pair (optional text) (
                                      pair (optional text) (
                                        pair (optional number) (
                                          pair (optional text)
                                            (optional (listed text))))))))))))))))))))))

abbrev fields_of : Task sample → Fields
fields_of t = (
  t.task_id,
  (
    t.retry_count,
    (
      t.max_retries,
      (
        t.retry_after_hours,
        (
          t.retry_after_time,
          (
            t.task_data,
            (
              t.task_type,
              (
                t.last_error_obj,
                (
                  t.last_job_error,
                  (
                    t.rate_limit_group,
                    (
                      t.max_per_minute,
                      (
                        t.auto_dedupe,
                        (
                          t.urgency_score,
                          (
                            t.payload_hash,
                            (
                              t.deleted_at,
                              (
                                t.execute_at,
                                (
                                  t.cron_expression,
                                  (
                                    t.webhook_url,
                                    (t.max_execution_seconds, (t.pool, (t.trigger_after_ids))),
                                  ),
                                ),
                              ),
                            ),
                          ),
                        ),
                      ),
                    ),
                  ),
                ),
              ),
            ),
          ),
        ),
      ),
    ),
  ),
)

abbrev built : ℕ → Fields → Task sample
built now p = record {
  task_id = p.0;
  retry_count = p.1.0;
  max_retries = p.1.1.0;
  retry_after_hours = p.1.1.1.0;
  retry_after_time = p.1.1.1.1.0;
  task_data = p.1.1.1.1.1.0;
  task_type = p.1.1.1.1.1.1.0;
  last_error_obj = p.1.1.1.1.1.1.1.0;
  last_job_error = p.1.1.1.1.1.1.1.1.0;
  rate_limit_group = p.1.1.1.1.1.1.1.1.1.0;
  max_per_minute = p.1.1.1.1.1.1.1.1.1.1.0;
  auto_dedupe = p.1.1.1.1.1.1.1.1.1.1.1.0;
  urgency_score = p.1.1.1.1.1.1.1.1.1.1.1.1.0;
  payload_hash = p.1.1.1.1.1.1.1.1.1.1.1.1.1.0;
  deleted_at = p.1.1.1.1.1.1.1.1.1.1.1.1.1.1.0;
  execute_at = p.1.1.1.1.1.1.1.1.1.1.1.1.1.1.1.0;
  cron_expression = p.1.1.1.1.1.1.1.1.1.1.1.1.1.1.1.1.0;
  webhook_url = p.1.1.1.1.1.1.1.1.1.1.1.1.1.1.1.1.1.0;
  max_execution_seconds = p.1.1.1.1.1.1.1.1.1.1.1.1.1.1.1.1.1.1.0;
  pool = p.1.1.1.1.1.1.1.1.1.1.1.1.1.1.1.1.1.1.1.0;
  trigger_after_ids = p.1.1.1.1.1.1.1.1.1.1.1.1.1.1.1.1.1.1.1.1;
  created_at = now;
  updated_at = now;
}

pub to_json : Task sample → Option String
to_json t = some (String.◌∷◌ "T" (fields_format.write (fields_of t) ""))

pub from_json : ℕ → String → Option (Task sample)
from_json now String.[] = none
from_json now (String.◌∷◌ c s) = elim (fields_format.read s) [
  | none ↦ none
  | some (p, rest) ↦ some (built now p)
]

read_printed :
    (now : ℕ) (t : Task sample)
    → from_json now (String.◌∷◌ "T" (fields_format.write (fields_of t) ""))
      ≡ some (reloaded sample now t)
unfolding from_json reloaded
read_printed now t = ground (arith, fields_format.read-write (fields_of t) "")

reread_none : (score : Option ℕ) → reread_or_none sample score ≡ score
unfolding reread_or_none
reread_none none = refl
reread_none (some score) = refl

-- The sample's `f64`s are read as they were printed.
pub reparsed_lem : (t : Task sample) → reparsed sample t ≡ t
unfolding reparsed
reparsed_lem t =
    ap (λ (score : Option ℕ). record t { urgency_score = score }) (reread_none t.urgency_score)

pub parse-print :
    (t : Task sample) (line : String) (now : ℕ)
    → is_printable sample t ≡ true
    → to_json t ≡ some line
    → from_json now line ≡ some (reloaded sample now (reparsed sample t))
unfolding to_json
parse-print t line now p e =
    let same : String.◌∷◌ "T" (fields_format.write (fields_of t) "") ≡ line = cc e in
    rw (← same, reparsed_lem t) (read_printed now t)

pub parse-printable :
    (now : ℕ) (line : String) (t : Task sample)
    → from_json now line ≡ some t
    → is_printable sample t ≡ true
unfolding is_printable
parse-printable now line t e = ground arith

pub parse-updated_at :
    (now : ℕ) (line : String) (t : Task sample) → from_json now line ≡ some t → t.updated_at ≡ now
unfolding from_json
parse-updated_at now String.[] t e = absurd (cc)
parse-updated_at now (String.◌∷◌ c s) t e = elim (Option-cases (fields_format.read s)) [
  | inl failed ↦ absurd (ground arith)
  | inr ((p, rest), read) ↦ ground arith
]

pub parse-reloaded :
    (now later : ℕ) (line : String) (t : Task sample)
    → from_json now line ≡ some t
    → from_json later line ≡ some (reloaded sample later t)
unfolding from_json reloaded
parse-reloaded now later String.[] t e = absurd (cc)
parse-reloaded now later (String.◌∷◌ c s) t e = elim (Option-cases (fields_format.read s)) [
  | inl failed ↦ absurd (ground arith)
  | inr ((p, rest), read) ↦ ground arith
]

pub print-not_blank :
    (t : Task sample) (line : String) → to_json t ≡ some line → is_blank line ≡ false
unfolding to_json is_blank
print-not_blank t line e =
    let same : String.◌∷◌ "T" (fields_format.write (fields_of t) "") ≡ line = cc e in
    rw (← same) refl

abbrev pub sample_serde : Serde sample
sample_serde = record {
  to_json = to_json;
  from_json = from_json;
  parse-print = parse-print;
  parse-printable = parse-printable;
  parse-updated_at = parse-updated_at;
  parse-reloaded = parse-reloaded;
  print-not_blank = print-not_blank;
}

pub sample_prints : (t : Task sample) → (line : String) × (sample_serde.to_json t ≡ some line)
unfolding to_json
sample_prints t = (_, refl)
