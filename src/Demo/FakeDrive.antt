-- ===== src/Demo/FakeDrive.antt =====
-- credbroker/demo/fake_drive.py: the listing of the fake provider. `str.lower` is a parameter.
use credbroker.Common.{
  ℕ, Text, not, Option, none, some, List, [], ◌∷◌, codes, take, has, starts_with, ◌==◌,
  if◌then◌else◌,
}
use credbroker.Http.{HttpReply, answered, http_exception}
use credbroker.Logging.{contains}

pub record DriveFile : Type 0 where
  pub id : Text
  pub name : Text
  pub mime_type : Text
  pub modified_time : Text

-- `pageSize: int | None`; `negsuc n` is -(n + 1)
pub data ℤ : Type 0 where
  pos : ℕ → ℤ
  negsuc : ℕ → ℤ

-- `SAMPLE_FILES`
abbrev pub sample_files : List DriveFile
sample_files =
    record {
      id = codes "1a2b3c4d5e6f-quarterly-report";
      name = codes "Quarterly Report Q3.pdf";
      mime_type = codes "application/pdf";
      modified_time = codes "2026-08-14T09:12:33.000Z";
    }
    ∷ record {
      id = codes "2b3c4d5e6f7a-roadmap";
      name = codes "Product Roadmap 2027";
      mime_type = codes "application/vnd.google-apps.document";
      modified_time = codes "2026-08-21T16:45:01.000Z";
    }
    ∷ record {
      id = codes "3c4d5e6f7a8b-budget";
      name = codes "Budget Forecast.xlsx";
      mime_type = codes "application/vnd.openxmlformats-officedocument.spreadsheetml.sheet";
      modified_time = codes "2026-07-30T11:02:47.000Z";
    }
    ∷ record {
      id = codes "4d5e6f7a8b9c-onboarding";
      name = codes "Onboarding Checklist";
      mime_type = codes "application/vnd.google-apps.document";
      modified_time = codes "2026-06-18T08:20:15.000Z";
    }
    ∷ record {
      id = codes "5e6f7a8b9c0d-team-photo";
      name = codes "Team Offsite Photo.png";
      mime_type = codes "image/png";
      modified_time = codes "2026-05-09T19:33:58.000Z";
    }
    ∷ record {
      id = codes "6f7a8b9c0d1e-metrics";
      name = codes "Metrics Dashboard Notes";
      mime_type = codes "application/vnd.google-apps.spreadsheet";
      modified_time = codes "2026-08-27T14:07:22.000Z";
    }
    ∷ record {
      id = codes "7a8b9c0d1e2f-launch-plan";
      name = codes "Launch Plan Draft.docx";
      mime_type = codes "application/vnd.openxmlformats-officedocument.wordprocessingml.document";
      modified_time = codes "2026-08-02T10:55:09.000Z";
    }
    ∷ []

-- the character "'"
abbrev pub quote : ℕ
quote = 39

-- `q.partition("'")`, without what stands before the quote: nothing where there is none
after_quote : Text → Option Text
after_quote [] = none
after_quote (c ∷ q) = let rest = after_quote q in if c == quote then some q else rest

-- `rest[: rest.index("'")]`, for a text with a quote
before_quote : Text → Text
before_quote [] = []
before_quote (c ∷ q) = let rest = before_quote q in if c == quote then [] else c ∷ rest

-- The quoted term, where the rest has its closing quote.
closed_term : Text → Option Text → Text
unfolding before_quote
closed_term q none = q
closed_term q (some rest) = if has quote rest then before_quote rest else q

-- `_name_needle`
unfoldable pub name_needle : Text → Text
unfolding after_quote closed_term
name_needle q = closed_term q (after_quote q)

module _ (lower : Text → Text) where
  named_like : Text → List DriveFile → List DriveFile
  named_like needle [] = []
  named_like needle (f ∷ files) =
      let rest = named_like needle files in
      if contains needle (lower f.name) then f ∷ rest else rest

  -- `if q:`
  filtered : Option Text → List DriveFile → List DriveFile
  unfolding named_like
  filtered none files = files
  filtered (some []) files = files
  filtered (some (c ∷ q)) files = named_like (lower (name_needle (c ∷ q))) files

  -- `if pageSize is not None and pageSize >= 0:`
  truncated : Option ℤ → List DriveFile → List DriveFile
  truncated none files = files
  truncated (some (negsuc n)) files = files
  truncated (some (pos n)) files = take n files

  -- `list_files`
  unfoldable pub list_files : Option Text → Option ℤ → Option Text → HttpReply (List DriveFile)
  unfolding filtered truncated
  list_files none page_size q = http_exception 401 (codes "Missing Bearer authorization")
  list_files (some authorization) page_size q =
      if not (starts_with authorization (codes "Bearer "))
      then http_exception 401 (codes "Missing Bearer authorization")
      else answered (truncated page_size (filtered q sample_files))
