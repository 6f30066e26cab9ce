-- ===== src/Benchmark/Summary.antt =====
-- gui-app/app/services/benchmark_service.py: summarize_by_policy. The literals 0.0 and 1 are added to
-- floats, so the first is a parameter.
pub mod Laws
pub mod Sums
use sql_parser.Base.{String, List, [], if◌then◌else◌}
use sql_parser.Base.Dict.{Dict, get_or, put}
use sql_parser.Base.Int.{pos}
use sql_parser.Base.Result.{Result, ok, ◌>>=◌, fold_m, map_m}
use sql_parser.Benchmark.{BenchmarkRecord}
use sql_parser.Value.{Runtime, whole, real}

-- The sums of a policy.
pub record Bucket (F : Type 0) : Type 0 where
  pub hits : F
  pub misses : F
  pub evictions : F
  pub elapsed_time : F
  pub count : F

pub record PolicySummary (F : Type 0) : Type 0 where
  pub hits : F
  pub misses : F
  pub evictions : F
  pub elapsed_time : F
  pub hit_rate : F

module _ ⦃rt : Runtime⦄ (zero : rt.Float) where
  open rt use {Float}

  -- the default of totals
  abbrev pub empty_bucket : Bucket Float
  empty_bucket = record {
    hits = zero;
    misses = zero;
    evictions = zero;
    elapsed_time = zero;
    count = zero;
  }

  -- bucket["hits"] += record.hits, and the others
  unfoldable pub add_to_bucket : Bucket Float → BenchmarkRecord Float → Result (Bucket Float)
  add_to_bucket b r = rt.float_add (real b.hits) (whole r.hits) >>= λ hits.
      rt.float_add (real b.misses) (whole r.misses) >>= λ misses.
      rt.float_add (real b.evictions) (whole r.evictions) >>= λ evictions.
      rt.float_add (real b.elapsed_time) (real r.elapsed_time) >>= λ elapsed_time.
      rt.float_add (real b.count) (whole (pos 1)) >>= λ count. ok (record {
        hits = hits;
        misses = misses;
        evictions = evictions;
        elapsed_time = elapsed_time;
        count = count;
      })

  -- a turn of the loop over the records
  unfoldable pub add_record :
      Dict (Bucket Float) → BenchmarkRecord Float → Result (Dict (Bucket Float))
  unfolding add_to_bucket
  add_record totals r =
      add_to_bucket (get_or r.policy empty_bucket totals) r >>= λ b. ok (put r.policy b totals)

  unfoldable pub totals_of : List (BenchmarkRecord Float) → Result (Dict (Bucket Float))
  unfolding add_record
  totals_of records = fold_m add_record [] records

  -- (bucket["hits"] / total_accesses) if total_accesses else 0.0
  unfoldable pub rate_of : Bucket Float → Result Float
  rate_of b = rt.float_add (real b.hits) (real b.misses) >>= λ total.
      if rt.float_eq (real total) (whole (pos 0))
      then ok zero
      else rt.float_div (real b.hits) (real total)

  unfoldable pub summary_of : Bucket Float → Result (PolicySummary Float)
  unfolding rate_of
  summary_of b = rate_of b >>= λ rate. ok (record {
    hits = b.hits;
    misses = b.misses;
    evictions = b.evictions;
    elapsed_time = b.elapsed_time;
    hit_rate = rate;
  })

  abbrev pub entry : String × Bucket Float → Result (String × PolicySummary Float)
  entry (policy, b) = summary_of b >>= λ s. ok (policy, s)

  unfoldable pub summarize_by_policy :
      List (BenchmarkRecord Float) → Result (Dict (PolicySummary Float))
  unfolding totals_of summary_of
  summarize_by_policy records = totals_of records >>= λ totals. map_m entry totals
