-- ===== src/ModelSchedule/Examples.antt =====
-- The theorems at the name of a layer's tensor and at the sample manifest.
use nemotron_inference.Base.{◌≡◌, ◌≢◌, some, [], text, arith}
use nemotron_inference.Manifest.Sample.{sample, sample-IsWellFormed}
use nemotron_inference.ModelSchedule.{parse_layer_path, build_model_schedule}
use nemotron_inference.ModelSchedule.Paths.{short_name, backbone_name, parse_layer_path-reads_back}
use nemotron_inference.ModelSchedule.Order.{ScheduleOf, build_model_schedule-ScheduleOf}

some_name : text "q_proj" ≢ []
unfolding text
some_name e = cc

parse_layer_path-reads_back_example :
    (parse_layer_path (short_name 17 (text "q_proj"))
      ≡ some (record { layer_index = 17; local_name = text "q_proj" }))
    × (parse_layer_path (backbone_name 17 (text "q_proj"))
        ≡ some (record { layer_index = 17; local_name = text "q_proj" }))
parse_layer_path-reads_back_example =
    parse_layer_path-reads_back 17 (text "q_proj") (omega arith) some_name

build_model_schedule-ScheduleOf_example : ScheduleOf sample (build_model_schedule sample)
build_model_schedule-ScheduleOf_example = build_model_schedule-ScheduleOf sample sample-IsWellFormed
