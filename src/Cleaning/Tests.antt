-- ===== src/Cleaning/Tests.antt =====
-- The theorem on cleaning at a concrete input.
use dev_search.Prelude.{◌≡◌, refl, none, map}
use dev_search.Prelude.Text.{codes}
use dev_search.Cleaning.{Reader, finish, tokenize}
use dev_search.Cleaning.Words.{tokenize-finish}

abbrev reader : Reader
reader = record {
  page_text = λ html. none;
  badges = λ md. md;
  images = λ md. md;
  links = λ md. md;
  lower = λ c. c;
}

tokenize-finish_example :
    tokenize (finish reader (codes " go\n\n maps "))
    ≡ map (map reader.lower) (tokenize (codes " go\n\n maps "))
tokenize-finish_example = tokenize-finish reader (codes " go\n\n maps ") (λ c. refl)
