-- ===== src/Output/Stream.antt =====
-- src/output.rs, `StreamRenderer`: what drives the printer and the statistics.
use btwattch2_rs.Prelude.{
  ℕ, ◌+◌, ◌%◌, ◌^◌, leb, if◌then◌else◌, Bool, true, false, List, [], Option, none, some,
}
use btwattch2_rs.Prelude.Text.{Text}
use btwattch2_rs.Chrono.{Chrono}
use btwattch2_rs.Float.{Float}
use btwattch2_rs.Connection.Measure.{Measurement}
use btwattch2_rs.Cli.Names.{OutputFormat}
use btwattch2_rs.Cli.Options.{LogLevel, info, off}
use btwattch2_rs.Output.Printer.{Line, Printer, new_printer, print, JsonEncoder}
use btwattch2_rs.Output.Stats.{Stats, new_stats, record_stats, print_summary}

pub record StreamRenderer (fl : Float) : Type 0 where
  pub printer : Printer
  pub stats : Stats fl
  pub samples : ℕ
  pub count : Option ℕ
  pub summary : Bool

module _ (fl : Float) where
  unfoldable pub new_renderer : OutputFormat → Text → Option ℕ → LogLevel → StreamRenderer fl
  unfolding new_printer new_stats
  new_renderer format prefix count log_level = record {
    printer = new_printer format prefix;
    stats = new_stats fl;
    samples = 0;
    count = count;
    summary = elim log_level [ info ↦ true | off ↦ false ];
  }

  -- `is_some_and(|c| samples >= c)`.
  unfoldable pub enough : Option ℕ → ℕ → Bool
  enough none samples = false
  enough (some count) samples = leb count samples

-- The lines printed, whether to stop, and the renderer after.
pub record Rendered (fl : Float) : Type 0 where
  pub lines : List Line
  pub break : Bool
  pub renderer : StreamRenderer fl

module _ (fl : Float) (c : Chrono) (to_json : JsonEncoder fl c) where
  unfoldable pub record_sample : ℕ → Measurement fl c → StreamRenderer fl → Rendered fl
  unfolding record_stats print enough
  record_sample now m r =
      let stats = record_stats fl c now m r.stats in
      let (lines, printer) = print fl c to_json m stats.energy_wh r.printer in
      let samples = (r.samples + 1) % 2 ^ 64 in
      record {
        lines = lines;
        break = enough fl r.count samples;
        renderer = record r { printer = printer; stats = stats; samples = samples };
      }

  -- The summary, printed when the renderer is dropped.
  unfoldable pub drop_renderer : StreamRenderer fl → List Line
  unfolding print_summary
  drop_renderer r = if r.summary then print_summary fl c r.stats else []
