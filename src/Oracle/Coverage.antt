-- ===== src/Oracle/Coverage.antt =====
-- The coverage report of src/aero_bot/oracles.py. Its fixed source addresses are left out.
use aero_bot.Prelude.{
  ℕ, ◌+◌, Bool, true, false, not, ◌&&◌, ◌==◌, leb, List, [], ◌∷◌, length, if◌then◌else◌,
}
use aero_bot.Prelude.Results.{Result, Error, checked}
use aero_bot.Oracle.Health.{OracleHealthResult}
use aero_bot.Abi.Bytes.{Text}

pub data OracleCoverageStatus : Type 0 where
  verified unavailable : OracleCoverageStatus

pub record ChainlinkCoverageReport : Type 0 where
  pub status : OracleCoverageStatus
  pub expected_assets : ℕ
  pub configured_feeds : ℕ
  pub healthy_feeds : ℕ
  pub assessments : List OracleHealthResult
  pub diagnostics : List Text

abbrev pub healthy_count : List OracleHealthResult → ℕ
healthy_count [] = 0
healthy_count (assessment ∷ assessments) =
    (if assessment.healthy then 1 else 0) + healthy_count assessments

abbrev pub has_diagnostics : List Text → Bool
has_diagnostics [] = false
has_diagnostics (_ ∷ _) = true

abbrev pub status_allows : ChainlinkCoverageReport → OracleCoverageStatus → Bool
status_allows report OracleCoverageStatus.verified =
    not (report.expected_assets == 0) && (report.configured_feeds == report.expected_assets)
status_allows report OracleCoverageStatus.unavailable = report.configured_feeds == 0

unfoldable pub consistent_coverage_counts : ChainlinkCoverageReport → Bool
consistent_coverage_counts report =
    (report.configured_feeds == length report.assessments)
    && (report.healthy_feeds == healthy_count report.assessments)
    && leb report.configured_feeds report.expected_assets
    && status_allows report report.status
    && has_diagnostics report.diagnostics

-- `ChainlinkCoverageReport(...)`
unfoldable pub chainlink_coverage_report : ChainlinkCoverageReport → Result ChainlinkCoverageReport
chainlink_coverage_report raw = checked (consistent_coverage_counts raw) Error.validation_error raw

-- The one diagnostic line is a parameter.
unfoldable pub unavailable_chainlink_coverage :
    (diagnostic : Text) → (expected_assets : ℕ) → Result ChainlinkCoverageReport
unavailable_chainlink_coverage diagnostic expected_assets = chainlink_coverage_report (record {
  status = OracleCoverageStatus.unavailable;
  expected_assets = expected_assets;
  configured_feeds = 0;
  healthy_feeds = 0;
  assessments = [];
  diagnostics = diagnostic ∷ [];
})
