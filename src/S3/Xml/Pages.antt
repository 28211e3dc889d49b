-- ===== src/S3/Xml/Pages.antt =====
-- A page of a listing, printed and read back by ParseFileList.
use haybarn_httpfs.Base.{
  Bool, true, ◌&&◌, none, some, List, [], ◌∷◌, ◌++◌, if◌then◌else◌, Text, codes,
}
use haybarn_httpfs.S3.Xml.{open_tag, close_tag, OpenFileInfo, StringUtil, ends_with_slash}
use haybarn_httpfs.S3.Xml.Tags.{has_no_tag}

-- An object of a bucket: its key, encoded, and its size.
pub record Object : Type 0 where
  pub key : Text
  pub size : Text

abbrev key_xml : Object → Text
key_xml o = open_tag (codes "Key") ++ (o.key ++ close_tag (codes "Key"))

abbrev size_xml : Object → Text
size_xml o = open_tag (codes "Size") ++ (o.size ++ close_tag (codes "Size"))

abbrev object_xml : Object → Text
object_xml o = open_tag (codes "Key") ++ (o.key ++ (close_tag (codes "Key") ++ size_xml o))

-- The objects one after another, then the rest of the page.
abbrev pub page : List Object → Text → Text
page [] rest = rest
page (o ∷ objects) rest =
    open_tag (codes "Contents")
    ++ (object_xml o ++ (close_tag (codes "Contents") ++ page objects rest))

-- Whether no key or size holds a '<'.
abbrev pub are_plain : List Object → Bool
are_plain [] = true
are_plain (o ∷ objects) = (has_no_tag o.key && has_no_tag o.size) && are_plain objects

abbrev file_of : StringUtil → Object → OpenFileInfo
file_of util o = record {
  path = util.url_decode o.key;
  last_modified = none;
  etag = none;
  file_size = some o.size;
}

-- The objects that are files.
abbrev pub files_of : StringUtil → List Object → List OpenFileInfo
files_of util [] = []
files_of util (o ∷ objects) =
    if ends_with_slash (util.url_decode o.key)
    then files_of util objects
    else file_of util o ∷ files_of util objects
