-- ===== src/Errors/Tests.antt =====
-- Errors as they are answered, and the theorems about them at concrete errors.
use api_proxy.Prelude.{◌≡◌, ◌≢◌, refl, false, none, [], ◌∷◌, ◌⊎◌}
use api_proxy.Prelude.Int.{pos}
use api_proxy.Text.{Str, bytes, str_eq}
use api_proxy.Text.Decimal.{atoi}
use api_proxy.Http.Writer.{new_writer}
use api_proxy.Errors.{
  ApiError, ErrorBody, error_body, write_error, protobuf_type, default_type, number_from_context,
  number_or_code,
}
use api_proxy.Errors.Numbers.{IsNumbered, error_body-IsNumbered}
use api_proxy.Errors.Answers.{Sends, write_error-Sends}

abbrev denied : ApiError
denied = record {
  error_type = bytes "FORBIDDEN";
  code = bytes "com.HailoOSS.api.rpc.auth";
  description = bytes "Permission denied.";
  context = bytes "5" ∷ bytes "more" ∷ [];
  http_code = 403;
  http_headers = [];
}

abbrev payload_of : ErrorBody → Str
payload_of b = b.payload

abbrev code_of : ApiError → Str
code_of err = err.code

number_test : (error_body denied).number ≡ pos 5
unfolding error_body number_from_context number_or_code atoi bytes
number_test = refl

default_test : (error_body (record denied { context = [] })).number ≡ pos 11
unfolding error_body number_from_context number_or_code atoi bytes
default_test = refl

error_body-IsNumbered_example :
    IsNumbered denied.context denied.code (error_body denied).number
    × ((error_body denied).number ≢ pos 0)
error_body-IsNumbered_example = error_body-IsNumbered denied

write_error-Sends_example :
    ((default_type ≡ protobuf_type)
      × Sends 403 protobuf_type
          (code_of denied)
          new_writer
          (write_error payload_of code_of false new_writer denied default_type none))
    ⊎ ((str_eq default_type protobuf_type ≡ false)
        × Sends 403 default_type
            (payload_of (error_body denied))
            new_writer
            (write_error payload_of code_of false new_writer denied default_type none))
write_error-Sends_example =
    write_error-Sends payload_of code_of false new_writer denied default_type none refl
