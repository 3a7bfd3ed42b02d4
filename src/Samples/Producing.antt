-- ===== src/Samples/Producing.antt =====
-- Sample events of an emitter, and samples of their encoding.
use agentue.Prelude.{differ, String, ◌≡◌, refl, false, none, some, [], ◌∷◌, ◌++◌}
use agentue.Json.{str, obj, Fields, empty, field, get, set}
use agentue.Result.{ok}
use agentue.Event.{validate_operation, check_operation, construct, to_json, number}
use agentue.Apply.{done, apply_patch, mapping}
use agentue.Emitter.{PatchEmitter, emit, run, end_call, end, error, error_payload}
use agentue.Emitter.Order.{run-Fits}
use agentue.Emitter.Reports.{error-reported}
use agentue.Sse.{
  encode_sse, lines_by, splitlines, join_lines, has_any, has_newline, is_boundary, message_lines,
  id_lines, data_line,
}
use agentue.Sse.Frames.{received_lines, encode_sse-received, encode_sse-whole}
use agentue.Samples.{page, strict}

-- an emitter at its seventh event
abbrev seventh : PatchEmitter
seventh = record { offset = 7; stream_id = some "main" }

abbrev eighth : Fields
eighth = field "op" (str "end") (field "seq" (number 8) (field "stream_id" (str "main") empty))

end_emitted : (run seventh end_call).result ≡ ok eighth
unfolding run end emit construct validate_operation check_operation to_json
end_emitted = refl

run-Fits_example :
    (get "seq" eighth ≡ some (number 8))
    × (get "stream_id" eighth ≡ some (str "main"))
    × ((run seventh end_call).emitter.stream_id ≡ some "main")
    × ((run seventh end_call).emitter.offset ≡ 8)
unfolding run end emit
run-Fits_example = run-Fits seventh end_call eighth end_emitted

page_meta : get "meta" page ≡ some (obj (field "task_id" (str "t1") empty))
unfolding get
page_meta = refl

error-reported_example :
    (json : Fields) × ((error seventh "timeout" "too slow" none (some "5 s")).result ≡ ok json)
    × (apply_patch strict page (mapping json)
        ≡ done (
            set "meta"
              (obj (
                set "error"
                  (obj (error_payload "timeout" "too slow" none (some "5 s")))
                  (field "task_id" (str "t1") empty)))
              page))
error-reported_example =
    error-reported strict seventh "timeout" "too slow" none (some "5 s") page
      (field "task_id" (str "t1") empty) page_meta

-- a payload with a line feed and a carriage return in it
two_lines : encode_sse "{\n}" (some "7") ≡ ok "id: 7\ndata: {\ndata: }\n\n"
unfolding encode_sse lines_by splitlines join_lines has_any
two_lines = refl

encode_sse-received_example :
    received_lines "id: 7\ndata: {\ndata: }\n\n" ≡ message_lines "{\n}" (some "7") ++ "" ∷ []
encode_sse-received_example =
    encode_sse-received "{\n}" (some "7") "id: 7\ndata: {\ndata: }\n\n" two_lines

no_newline : has_newline (some "7") ≡ false
unfolding has_any
no_newline = refl

one_line : has_any is_boundary "{}" ≡ false
unfolding has_any
one_line = refl

encode_sse-whole_example :
    (sent : String) × (encode_sse "{}" (some "7") ≡ ok sent)
    × (received_lines sent ≡ id_lines (some "7") ++ data_line "{}" ∷ "" ∷ [])
encode_sse-whole_example =
    encode_sse-whole "{}" (some "7") (differ "{}" "" refl) no_newline one_line
