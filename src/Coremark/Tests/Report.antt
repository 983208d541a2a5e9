-- ===== src/Coremark/Tests/Report.antt =====
-- Runs of the model of coremark/core_main.c on small inputs.
use multiplix.Prelude.{◌≡◌, ◌↔◌, refl, some, []}
use multiplix.Coremark.ListJoin.Bench.{Results}
use multiplix.Coremark.Main.Report.{Sizes, validated, known_id, seedcrc, check_data_types, report}
use multiplix.Coremark.Main.Report.Valid.{Passes, report-validated}

-- The types of the port.
abbrev sizes : Sizes
sizes = record {
  ee_u8 = 1;
  ee_u16 = 2;
  ee_s16 = 2;
  ee_s32 = 4;
  ee_u32 = 4;
  ee_ptr_int = 8;
  pointer = 8;
}

-- Results of the performance run with 666 bytes for each algorithm.
abbrev performance : Results
performance = record {
  seed1 = 0;
  seed2 = 0;
  seed3 = 0x66;
  size = 666;
  iterations = 1;
  execs = 7;
  list = 0;
  N = 9;
  A = [];
  B = [];
  C = [];
  state = [];
  crc = 0;
  crclist = 0xe714;
  crcmatrix = 0x1fd7;
  crcstate = 0x8e3a;
}

report-validated_example :
    (report sizes 12 performance ≡ validated)
    ↔ Passes (known_id (seedcrc performance)) 12 performance
unfolding check_data_types
report-validated_example = report-validated sizes 12 performance refl

performance_test : known_id (seedcrc performance) ≡ some 3
unfolding seedcrc known_id
performance_test = refl

-- Seeds that are not known, in less than ten seconds.
report_test : report sizes 9 (record performance { seed1 = 1 }) ≡ validated
unfolding report
report_test = refl
