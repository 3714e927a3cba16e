-- ===== src/Parsing/Errors.antt =====
-- The errors of `ExtractTextAndStore`, as the parser's worker reads them.
use Prim.Native.String.{String}
use dev_search.Prelude.{◌≡◌, refl, false, some, ◌++◌}
use dev_search.Prelude.Text.{codes, has_prefix}
use dev_search.Prelude.Decimal.{text_of}
use dev_search.Worker.{JobError, retry_later}
use dev_search.Parsing.Handler.{
  ParseError, empty_payload, bad_url, bad_payload, no_key, get_failed, extract_failed, store_failed,
  meta_failed, marshal_failed, panicked,
}

abbrev said : String → String → String
said text detail = text_of (codes text ++ codes detail)

-- The text of an error; `detail` is that of the error it wraps, or the URL.
unfoldable pub error_text : ParseError → String → String
error_text empty_payload detail = said "parser received empty payload for " detail
error_text bad_url detail = said "failed parsing url: " detail
error_text bad_payload detail = said "failed unmarshaling parse payload: " detail
error_text no_key detail = "invalid payload: missing object key"
error_text get_failed detail = said "failed getting object from s3: " detail
error_text extract_failed detail = said "failed extracting text from raw data: " detail
error_text store_failed detail = said "failed storing text data: " detail
error_text meta_failed detail = said "failed fetching metadata for current url: " detail
error_text marshal_failed detail = said "Can't marshal record: " detail
error_text panicked detail = said "panic: " detail

unfoldable pub job_error : ParseError → String → JobError
job_error err detail = record { wraps_rate_limited = false; text = error_text err detail }

-- No error of the parser is taken for a rate limit.
pub retry_later-job_error :
    (err : ParseError) (detail : String) → retry_later (some (job_error err detail)) ≡ false
unfolding retry_later job_error error_text has_prefix
retry_later-job_error empty_payload detail = refl
retry_later-job_error bad_url detail = refl
retry_later-job_error bad_payload detail = refl
retry_later-job_error no_key detail = refl
retry_later-job_error get_failed detail = refl
retry_later-job_error extract_failed detail = refl
retry_later-job_error store_failed detail = refl
retry_later-job_error meta_failed detail = refl
retry_later-job_error marshal_failed detail = refl
retry_later-job_error panicked detail = refl
