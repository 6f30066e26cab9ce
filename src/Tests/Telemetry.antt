-- ===== src/Tests/Telemetry.antt =====
-- A session of the telemetry history.
use sql_parser.Base.{◌≡◌, refl, none, [], ◌∷◌}
use sql_parser.Base.Int.{ℤ, pos, ◌+ℤ◌}
use sql_parser.Base.Result.{ok}
use sql_parser.Telemetry.{
  QueryMetrics, QueryResult, query, History, init, record_query, log_query, add_counts, add_elapsed,
  set_hit_rate,
}
use sql_parser.Storage.Text.{strip}
use sql_parser.Tests.Sample.{sample}

abbrev zero : ℤ
zero = pos 0

abbrev pub some_metrics : QueryMetrics ℤ
some_metrics = record {
  hits = pos 6;
  misses = pos 2;
  evictions = pos 1;
  hit_rate = pos 0;
  elapsed_time = pos 3;
}

abbrev some_result : QueryResult ℤ
some_result = record { query = " SELECT 1 "; metrics = some_metrics; error = none }

-- hit_rate is what the sample's division gives, its first operand.
abbrev some_total : QueryMetrics ℤ
some_total = record {
  hits = pos 6;
  misses = pos 2;
  evictions = pos 1;
  hit_rate = pos 6;
  elapsed_time = pos 3;
}

abbrev queried : History ℤ
queried = record {
  events =
      record {
        timestamp = "10:00:00";
        kind = query;
        query_text = "SELECT 1";
        delta_metrics = some_metrics;
        total_metrics = some_total;
        note = "ok";
      }
      ∷ [];
  current_total = some_total;
}

was_queried : record_query zero "10:00:00" some_result (init zero) ≡ (ok some_total, queried)
unfolding record_query add_counts add_elapsed set_hit_rate log_query strip ◌+ℤ◌
was_queried = refl
