-- ===== src/Crawler/Errors.antt =====
-- The errors of `FetchAndStoreRaw`, as the crawl worker reads them.
use Prim.Native.String.{String}
use dev_search.Prelude.{
  ℕ, ◌-◌, ◌*◌, ◌/◌, ◌^◌, ◌<◌, ◌≡◌, refl, ap, ◌∙◌, Bool, true, false, some, List, [], ◌∷◌, ◌++◌,
  arith,
}
use dev_search.Prelude.Int.{pos}
use dev_search.Prelude.Text.{codes, has_prefix}
use dev_search.Prelude.Strings.{split, split-append, split_one, digits, is_digit}
use dev_search.Prelude.Decimal.{
  text_of, codes-text_of, decimal, decimal-NoChar, decimal-Low, decimal_first, digits-decimal,
}
use dev_search.RateLimit.{millisecond}
use dev_search.Worker.{JobError, retry_later, unsigned, atoi, wrap, milliseconds, retry_delay}
use dev_search.Crawler.Handlers.{
  CrawlError, bad_url, meta_failed, robots_failed, limiter_failed, clean_failed, store_failed,
  payload_failed, enqueue_failed, readme_failed, base64_failed, clean_md_failed, store_md_failed,
  panicked, rate_limited, fetch_failed, empty_name, empty_payload, invalid_repo, fetch_repo_failed,
  missing_payload,
}

abbrev pub said : String → List ℕ → String
said text rest = text_of (codes text ++ rest)

abbrev pub of_body : String → String → List ℕ
of_body url detail = codes url ++ (codes ": can't read response body: " ++ codes detail)

-- The text of an error; `detail` is that of the error it wraps.
unfoldable pub error_text : CrawlError → String → String
error_text bad_url detail = said "Parsing url in processing job: " (codes detail)
error_text meta_failed detail = said "Unable to get domain meta: " (codes detail)
error_text robots_failed detail = said "Robots error: " (codes detail)
error_text limiter_failed detail = said "Rate limiting error: " (codes detail)
error_text clean_failed detail = said "Can't clean html: " (codes detail)
error_text store_failed detail = said "Can't store html: " (codes detail)
error_text payload_failed detail = said "failed marshaling parse payload: " (codes detail)
error_text enqueue_failed detail = said "failed to enqueue parse job: " (codes detail)
error_text readme_failed detail = said "Can't parse README json: " (codes detail)
error_text base64_failed detail = said "Can't decode README: " (codes detail)
error_text clean_md_failed detail = said "Can't clean markdown: " (codes detail)
error_text store_md_failed detail = said "Can't store markdown: " (codes detail)
error_text panicked detail = said "panic: " (codes detail)
error_text (rate_limited wait) detail = said "rate limited:" (decimal (wait / millisecond))
error_text (fetch_failed url) detail = said "Can't fetch from " (of_body url detail)
error_text (empty_name url) detail = said "store returned empty objectKey for " (codes url)
error_text (empty_payload url) detail = said "empty parse payload for " (codes url)
error_text (invalid_repo url) detail = said "Invalid repo url: " (codes url)
error_text (fetch_repo_failed url) detail = said "Can't fetch repo from " (of_body url detail)
error_text (missing_payload id) detail = said "missing payload for job " (codes id)

abbrev pub is_rate_limited : CrawlError → Bool
is_rate_limited (rate_limited wait) = true
is_rate_limited err = false

unfoldable pub job_error : CrawlError → String → JobError
job_error err detail = record {
  wraps_rate_limited = is_rate_limited err;
  text = error_text err detail;
}

-- The worker puts off exactly the jobs that met the rate limit: no other error of the crawler is taken for
-- that one by its text.
pub retry_later-job_error :
    (err : CrawlError) (detail : String)
    → retry_later (some (job_error err detail)) ≡ is_rate_limited err
unfolding retry_later job_error error_text has_prefix
retry_later-job_error bad_url detail = refl
retry_later-job_error meta_failed detail = refl
retry_later-job_error robots_failed detail = refl
retry_later-job_error limiter_failed detail = refl
retry_later-job_error clean_failed detail = refl
retry_later-job_error store_failed detail = refl
retry_later-job_error payload_failed detail = refl
retry_later-job_error enqueue_failed detail = refl
retry_later-job_error readme_failed detail = refl
retry_later-job_error base64_failed detail = refl
retry_later-job_error clean_md_failed detail = refl
retry_later-job_error store_md_failed detail = refl
retry_later-job_error panicked detail = refl
retry_later-job_error (rate_limited wait) detail = refl
retry_later-job_error (fetch_failed url) detail = refl
retry_later-job_error (empty_name url) detail = refl
retry_later-job_error (empty_payload url) detail = refl
retry_later-job_error (invalid_repo url) detail = refl
retry_later-job_error (fetch_repo_failed url) detail = refl
retry_later-job_error (missing_payload id) detail = refl

no_sign :
    (c : ℕ) (cs : List ℕ) → is_digit c ≡ true → atoi (c ∷ cs) ≡ unsigned (2 ^ 63 - 1) pos (c ∷ cs)
unfolding atoi is_digit
no_sign c cs digit = ground arith

in_range :
    (n c : ℕ) (cs : List ℕ)
    → n < 2 ^ 63
    → digits 0 (c ∷ cs) ≡ some n
    → unsigned (2 ^ 63 - 1) pos (c ∷ cs) ≡ some (pos n)
unfolding unsigned
in_range n c cs h read = rw (read) (ground arith)

-- `Atoi` reads a number back.
atoi-decimal : (n : ℕ) → n < 2 ^ 63 → atoi (decimal n) ≡ some (pos n)
atoi-decimal n h =
    let (c, cs, e, digit) = decimal_first n in
    rw (e) (no_sign c cs digit ∙ in_range n c cs h (rw (← e) (digits-decimal n (omega arith))))

split_rate_limited :
    (ms : ℕ)
    → split b':' (codes (said "rate limited:" (decimal ms)))
      ≡ codes "rate limited" ∷ decimal ms ∷ []
split_rate_limited ms =
    ap (split b':') (
      codes-text_of (codes "rate limited:" ++ decimal ms) (
        omega arith,
        (
          omega arith,
          (
            omega arith,
            (
              omega arith,
              (
                omega arith,
                (
                  omega arith,
                  (
                    omega arith,
                    (
                      omega arith,
                      (
                        omega arith,
                        (omega arith, (omega arith, (omega arith, (omega arith, decimal-Low ms)))),
                      ),
                    ),
                  ),
                ),
              ),
            ),
          ),
        ),
      ))
    ∙ (split-append b':' (codes "rate limited") (decimal ms) (
      refl,
      (refl, (refl, (refl, (refl, (refl, (refl, (refl, (refl, (refl, (refl, (refl, tt))))))))))),
    )
        ∙ ap (λ parts. codes "rate limited" ∷ parts)
            (split_one b':' (decimal ms) (decimal-NoChar ms)))

milliseconds_fits :
    (ms : ℕ) → ms * millisecond < 2 ^ 63 → milliseconds (pos ms) ≡ pos (ms * millisecond)
unfolding milliseconds wrap
milliseconds_fits ms h = ground arith

delay_of_parts :
    (retry_count ms : ℕ) (msg first second : List ℕ)
    → split b':' msg ≡ first ∷ second ∷ []
    → atoi second ≡ some (pos ms)
    → retry_delay retry_count msg ≡ milliseconds (pos ms)
unfolding retry_delay
delay_of_parts retry_count ms msg first second parts read = rw (parts, retry_delay) (rw (read) refl)

-- The wait that the error of a rate-limited job names, whole milliseconds below 2 ^ 63 nanoseconds, is the delay
-- that the worker reads out of the error's text, whatever the count of retries.
pub retry_delay-job_error :
    (ms retry_count : ℕ) (detail : String)
    → ms * millisecond < 2 ^ 63
    → retry_delay retry_count (codes (job_error (rate_limited (ms * millisecond)) detail).text)
      ≡ pos (ms * millisecond)
unfolding job_error error_text
retry_delay-job_error ms retry_count detail h =
    let whole : ms * millisecond / millisecond ≡ ms = omega arith in
    rw (whole) (
      delay_of_parts retry_count ms (codes (said "rate limited:" (decimal ms)))
        (codes "rate limited") (decimal ms) (split_rate_limited ms) (atoi-decimal ms (omega arith))
      ∙ milliseconds_fits ms h)
