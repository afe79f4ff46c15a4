-- ===== src/Google/Tests.antt =====
-- A small description of a file, and responses, with dates as pairs of numbers.
use gd2fuse.Base.{ℕ, none, codes}
use gd2fuse.Google.{Dates, DriveFile}

abbrev pub dates : Dates
dates = record {
  DateTime = ℕ × ℕ;
  get_timeval = λ t. t;
  from_seconds = λ s. (s, 0);
  unhex = λ s. none;
}

abbrev pub file : DriveFile dates
file = record {
  id = "i";
  title = "notes";
  mime_type = codes "text/plain";
  modified_date = (5, 7);
  last_viewed_by_me_date = (6, 0);
  file_size = 3;
  md5_checksum = codes "abc";
}
