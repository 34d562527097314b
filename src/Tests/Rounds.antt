-- ===== src/Tests/Rounds.antt =====
-- The rounds of an executor whose first fast checks pass, for a Python that reads decimal texts.
use syndicate.Prelude.{ℕ, ◌≡◌, refl, ap, ◌-◌, some, str, pos, or_zero, or_nil}
use syndicate.Prelude.Text.Decimal.{value_from, value_from-str}
use syndicate.Exec.Yields.{Yields, Yields-pure}
use syndicate.Nodes.Config.{max_strikes}
use syndicate.Nodes.Executor.{executor_node}
use syndicate.Server.Events.{Python}
use syndicate.Server.Registry.{RunRecord, new_record}
use syndicate.Server.Rounds.{IsExtracted, executor_node-IsExtracted}
use syndicate.Tests.World.{demo, start}

abbrev reading : Python
reading = record {
  sub = λ pattern replacement s. s;
  dumps = λ value. "{}";
  int = λ s. some (pos (value_from 0 s));
}

reading-str : (n : ℕ) → reading.int (str n) ≡ some (pos n)
reading-str n = ap (λ m. some (pos m)) (value_from-str n)

abbrev fresh : RunRecord
fresh = new_record 0 "run" "Fix the parser"

executor_node-IsExtracted_example :
    Yields
      (IsExtracted reading reading-str
        (or_zero start.strike_count)
        (max_strikes - or_zero start.strike_count)
        (or_nil start.attempt_log)
        fresh)
      (executor_node demo start)
unfolding new_record
executor_node-IsExtracted_example =
    executor_node-IsExtracted reading reading-str demo start fresh refl (Yields-pure _ refl)
