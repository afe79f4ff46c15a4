-- ===== src/Configuration/Tables.antt =====
-- The tables of the global configuration (src/control/Configuration.cpp) and of the provider's
-- (src/providers/google/GoogleProvider.cpp); a session's is empty.
use gd2fuse.Base.{String, Bool, true, false, Option, none, some, List, [], ◌∷◌, Text, codes}
use gd2fuse.EnumDef.{EnumEntry}
use gd2fuse.Property.{TypeName, enum, uint, oint, bool, path, PropDefi}
use gd2fuse.PropertyList.{EnumDefi}

abbrev row : String → TypeName → Option Text → String → Bool → String → PropDefi
row name type code default change description = record {
  name = codes name;
  type = type;
  enum_code = code;
  default_value = codes default;
  change_rt = change;
  description = codes description;
}

abbrev entry : String → String → EnumEntry
entry name description = record { entry = codes name; description = codes description }

abbrev pub global_properties : List PropDefi
global_properties =
    row "change_collision_strategy" enum (some (codes "coll")) "prefer_remote" true
      "Strategy of resolving collision of changed files."
    ∷ row "cache_max_size" uint none "100" true "Max size of file cache (Megabytes)."
    ∷ row "read_only" bool none "false" true "Read-only mode."
    ∷ row "cache_prefetch_strategy" enum (some (codes "cpst")) "lazy" true
        "Strategy of anticipatory caching."
    ∷ row "permission_new_file" oint none "644" true "New files permissions."
    ∷ row "permission_new_folder" oint none "755" true "New directory permissions."
    ∷ row "permission_new_spec" oint none "444" true
        "Permissions to new special files (non editable)."
    ∷ row "erase_policy" enum (some (codes "erpo")) "trash" true "Element's deleting policy."
    ∷ row "sync" bool none "true" true "Syncronization with remote side."
    ∷ row "limit_upload_max" uint none "0" true "Max upload speed (kilobits/sec)."
    ∷ row "limit_download_max" uint none "0" true "Max download speed (kilobits/sec)."
    ∷ row "limit_upload_min" uint none "0" true
        "Min upload speed limit after that sync will be disabled (kilobits/sec)."
    ∷ row "control_dir" path none "/.control" false "Control directory's mountpoint."
    ∷ []

abbrev pub global_enums : List EnumDefi
global_enums =
    record {
      code = codes "coll";
      entries =
          entry "prefer_local" "Prefer mine file."
          ∷ entry "prefer_remote" "Prefer remote file."
          ∷ [];
    }
    ∷ record {
      code = codes "cpst";
      entries =
          entry "none" "Do not use anticipatory caching."
          ∷ entry "eager" "Aggresive anticipatory caching."
          ∷ entry "lazy" "Balanced and soft :)"
          ∷ [];
    }
    ∷ record {
      code = codes "erpo";
      entries = entry "forever" "Final deletion." ∷ entry "trash" "Delete to trash." ∷ [];
    }
    ∷ []

abbrev pub google_properties : List PropDefi
google_properties =
    row "permission_new_gdoc" oint none "444" true "Permissions to new GDoc files (non editable)."
    ∷ row "export_gdoc_documents" enum (some (codes "gdde")) "plain_text" true
        "Format to export GDoc documents."
    ∷ row "export_gdoc_spreadsheets" enum (some (codes "gdds")) "csv" true
        "Format to export GDoc Spreadsheets."
    ∷ row "export_gdoc_drawings" enum (some (codes "gddd")) "jpeg" true
        "Format to export GDoc Drawings."
    ∷ row "export_gdoc_presentations" enum (some (codes "gddp")) "plain_text" true
        "Format to export GDoc Presentations."
    ∷ row "use-ssl-verify" bool none "true" false
        "Google servers certificate's checking will be disabled."
    ∷ row "ssl-ca-path" path none "" false "path to the SSL certificate authority validation data."
    ∷ []

abbrev pub google_enums : List EnumDefi
google_enums =
    record {
      code = codes "gdde";
      entries =
          entry "html" "HTML"
          ∷ entry "plain_text" "Plain text"
          ∷ entry "rich_text" "RTF"
          ∷ entry "openoffice_doc" "OpenOffice odt"
          ∷ entry "pdf" "PDF"
          ∷ entry "ms_word" "MS Word"
          ∷ [];
    }
    ∷ record {
      code = codes "gdds";
      entries =
          entry "csv" "Comma separated list"
          ∷ entry "openoffice_sheet" "OpenOffice ods"
          ∷ entry "pdf" "PDF"
          ∷ entry "ms_excel" "MS Excel"
          ∷ [];
    }
    ∷ record {
      code = codes "gddd";
      entries =
          entry "jpeg" "JPEG" ∷ entry "png" "PNG" ∷ entry "svg" "SVG" ∷ entry "pdf" "PDF" ∷ [];
    }
    ∷ record {
      code = codes "gddp";
      entries =
          entry "plain_text" "Plain text"
          ∷ entry "pdf" "PDF"
          ∷ entry "ms_powerpoint" "MS PowerPoint"
          ∷ [];
    }
    ∷ []

abbrev pub session_properties : List PropDefi
session_properties = []

abbrev pub session_enums : List EnumDefi
session_enums = []
