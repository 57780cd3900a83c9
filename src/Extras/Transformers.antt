-- ===== src/Extras/Transformers.antt =====
-- grizzly_extras/transformer.py: the content types. The transformers themselves are parameters where
-- they are used.
use grizzly.Common.{◌||◌, if◌then◌else◌, list_eq, nat_eq, ◌==◌, Result, ok, err}
use grizzly.Common.Text.{Text, codes, to_lower}
use grizzly.Exceptions.{Exception, value_error}

-- TransformerContentType
pub data ContentType : Type 0 where
  undefined json xml plain multipart_form_data : ContentType

unfoldable pub name_of : ContentType → Text
name_of undefined = codes "UNDEFINED"
name_of json = codes "JSON"
name_of xml = codes "XML"
name_of plain = codes "PLAIN"
name_of multipart_form_data = codes "MULTIPART_FORM_DATA"

-- TransformerContentType.from_string
unfoldable pub from_string : Text → Result Exception ContentType
from_string value =
    let name = to_lower value in
    if name == codes "undefined"
    then ok undefined
    else if name == codes "json" || name == codes "application/json"
    then ok json
    else if name == codes "xml" || name == codes "application/xml"
    then ok xml
    else if name == codes "plain" || name == codes "text/plain"
    then ok plain
    else if name == codes "multipart_form_data" || name == codes "multipart/form-data"
    then ok multipart_form_data
    else err value_error
