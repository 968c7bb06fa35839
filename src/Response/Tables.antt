-- ===== src/Response/Tables.antt =====
-- The tables of Response.cpp: the reason phrase of a status code, the content type of an extension.
use Prim.Native.Nat.{ℕ}
use mathlib.Core.List.{List, [], ◌∷◌}
use cndl.Base.{Bytes, codes}

abbrev pub code2reason : List (ℕ × Bytes)
code2reason =
    (101, codes "Switching Protocols")
    ∷ (200, codes "OK")
    ∷ (201, codes "Created")
    ∷ (202, codes "Accepted")
    ∷ (203, codes "Non-Authoritative Information")
    ∷ (204, codes "No Content")
    ∷ (205, codes "Reset Content")
    ∷ (206, codes "Partial Content")
    ∷ (207, codes "Multi-Status")
    ∷ (208, codes "Already Reported")
    ∷ (226, codes "IM Used")
    ∷ (300, codes "Multiple Choices")
    ∷ (301, codes "Moved Permanently")
    ∷ (302, codes "Found")
    ∷ (303, codes "See Other")
    ∷ (304, codes "Not Modified")
    ∷ (305, codes "Use Proxy")
    ∷ (306, codes "Switch Proxy")
    ∷ (307, codes "Temporary Redirect")
    ∷ (308, codes "Permanent Redirect")
    ∷ (400, codes "Bad Request")
    ∷ (401, codes "Unauthorized")
    ∷ (402, codes "Payment Required")
    ∷ (403, codes "Forbidden")
    ∷ (404, codes "Not Found")
    ∷ (405, codes "Method Not Allowed")
    ∷ (406, codes "Not Acceptable")
    ∷ (407, codes "Proxy Authentication Required")
    ∷ (408, codes "Request Timeout")
    ∷ (409, codes "Conflict")
    ∷ (410, codes "Gone")
    ∷ (411, codes "Length Required")
    ∷ (412, codes "Precondition Failed")
    ∷ (413, codes "Payload Too Large")
    ∷ (414, codes "URI Too Long")
    ∷ (415, codes "Unsupported Media Type")
    ∷ (416, codes "Range Not Satisfiable")
    ∷ (417, codes "Expectation Failed")
    ∷ (418, codes "I'm a teapot")
    ∷ (421, codes "Misdirected Request")
    ∷ (422, codes "Unprocessable Entity")
    ∷ (423, codes "Locked")
    ∷ (424, codes "Failed Dependency")
    ∷ (425, codes "Too Early")
    ∷ (426, codes "Upgrade Required")
    ∷ (428, codes "Precondition Required")
    ∷ (429, codes "Too Many Requests")
    ∷ (431, codes "Request Header Fields Too Large")
    ∷ (451, codes "Unavailable For Legal Reasons")
    ∷ (500, codes "Internal Server Error")
    ∷ (501, codes "Not Implemented")
    ∷ (502, codes "Bad Gateway")
    ∷ (503, codes "Service Unavailable")
    ∷ (504, codes "Gateway Timeout")
    ∷ (505, codes "HTTP Version Not Supported")
    ∷ (506, codes "Variant Also Negotiates")
    ∷ (507, codes "Insufficient Storage")
    ∷ (508, codes "Loop Detected")
    ∷ (510, codes "Not Extended")
    ∷ (511, codes "Network Authentication Required")
    ∷ []

abbrev pub extension_lookup_table : List (Bytes × Bytes)
extension_lookup_table =
    (codes "html", codes "text/html")
    ∷ (codes "htm", codes "text/html")
    ∷ (codes "shtml", codes "text/html")
    ∷ (codes "css", codes "text/css")
    ∷ (codes "xml", codes "text/xml")
    ∷ (codes "gif", codes "image/gif")
    ∷ (codes "jpeg", codes "image/jpeg")
    ∷ (codes "jpg", codes "image/jpeg")
    ∷ (codes "js", codes "application/javascript")
    ∷ (codes "atom", codes "application/atom+xml")
    ∷ (codes "rss", codes "application/rss+xml")
    ∷ (codes "mml", codes "text/mathml")
    ∷ (codes "txt", codes "text/plain")
    ∷ (codes "jad", codes "text/vnd.sun.jme.app-descriptor")
    ∷ (codes "wml", codes "text/vnd.wap.wml")
    ∷ (codes "htc", codes "text/x-component")
    ∷ (codes "png", codes "image/png")
    ∷ (codes "svg", codes "image/svg+xml")
    ∷ (codes "svgz", codes "image/svg+xml")
    ∷ (codes "tif", codes "image/tiff")
    ∷ (codes "tiff", codes "image/tiff")
    ∷ (codes "wbmp", codes "image/vnd.wap.wbmp")
    ∷ (codes "webp", codes "image/webp")
    ∷ (codes "ico", codes "image/x-icon")
    ∷ (codes "jng", codes "image/x-jng")
    ∷ (codes "bmp", codes "image/x-ms-bmp")
    ∷ (codes "woff", codes "font/woff")
    ∷ (codes "woff2", codes "font/woff2")
    ∷ (codes "jar", codes "application/java-archive")
    ∷ (codes "war", codes "application/java-archive")
    ∷ (codes "ear", codes "application/java-archive")
    ∷ (codes "json", codes "application/json")
    ∷ (codes "hqx", codes "application/mac-binhex40")
    ∷ (codes "doc", codes "application/msword")
    ∷ (codes "pdf", codes "application/pdf")
    ∷ (codes "ps", codes "application/postscript")
    ∷ (codes "eps", codes "application/postscript")
    ∷ (codes "ai", codes "application/postscript")
    ∷ (codes "rtf", codes "application/rtf")
    ∷ (codes "m3u8", codes "application/vnd.apple.mpegurl")
    ∷ (codes "kml", codes "application/vnd.google-earth.kml+xml")
    ∷ (codes "kmz", codes "application/vnd.google-earth.kmz")
    ∷ (codes "xls", codes "application/vnd.ms-excel")
    ∷ (codes "eot", codes "application/vnd.ms-fontobject")
    ∷ (codes "ppt", codes "application/vnd.ms-powerpoint")
    ∷ (codes "odg", codes "application/vnd.oasis.opendocument.graphics")
    ∷ (codes "odp", codes "application/vnd.oasis.opendocument.presentation")
    ∷ (codes "ods", codes "application/vnd.oasis.opendocument.spreadsheet")
    ∷ (codes "odt", codes "application/vnd.oasis.opendocument.text")
    ∷ (codes "wmlc", codes "application/vnd.wap.wmlc")
    ∷ (codes "7z", codes "application/x-7z-compressed")
    ∷ (codes "cco", codes "application/x-cocoa")
    ∷ (codes "jardiff", codes "application/x-java-archive-diff")
    ∷ (codes "jnlp", codes "application/x-java-jnlp-file")
    ∷ (codes "run", codes "application/x-makeself")
    ∷ (codes "pl", codes "application/x-perl")
    ∷ (codes "pm", codes "application/x-perl")
    ∷ (codes "prc", codes "application/x-pilot")
    ∷ (codes "pdb", codes "application/x-pilot")
    ∷ (codes "rar", codes "application/x-rar-compressed")
    ∷ (codes "rpm", codes "application/x-redhat-package-manager")
    ∷ (codes "sea", codes "application/x-sea")
    ∷ (codes "swf", codes "application/x-shockwave-flash")
    ∷ (codes "sit", codes "application/x-stuffit")
    ∷ (codes "tcl", codes "application/x-tcl")
    ∷ (codes "tk", codes "application/x-tcl")
    ∷ (codes "der", codes "application/x-x509-ca-cert")
    ∷ (codes "pem", codes "application/x-x509-ca-cert")
    ∷ (codes "crt", codes "application/x-x509-ca-cert")
    ∷ (codes "xpi", codes "application/x-xpinstall")
    ∷ (codes "xhtml", codes "application/xhtml+xml")
    ∷ (codes "xspf", codes "application/xspf+xml")
    ∷ (codes "zip", codes "application/zip")
    ∷ (codes "bin", codes "application/octet-stream")
    ∷ (codes "exe", codes "application/octet-stream")
    ∷ (codes "dll", codes "application/octet-stream")
    ∷ (codes "deb", codes "application/octet-stream")
    ∷ (codes "dmg", codes "application/octet-stream")
    ∷ (codes "iso", codes "application/octet-stream")
    ∷ (codes "img", codes "application/octet-stream")
    ∷ (codes "msi", codes "application/octet-stream")
    ∷ (codes "msp", codes "application/octet-stream")
    ∷ (codes "msm", codes "application/octet-stream")
    ∷ (codes "mid", codes "audio/midi")
    ∷ (codes "midi", codes "audio/midi")
    ∷ (codes "kar", codes "audio/midi")
    ∷ (codes "mp3", codes "audio/mpeg")
    ∷ (codes "ogg", codes "audio/ogg")
    ∷ (codes "m4a", codes "audio/x-m4a")
    ∷ (codes "ra", codes "audio/x-realaudio")
    ∷ (codes "3gpp", codes "video/3gpp")
    ∷ (codes "3gp", codes "video/3gpp")
    ∷ (codes "ts", codes "video/mp2t")
    ∷ (codes "mp4", codes "video/mp4")
    ∷ (codes "mpeg", codes "video/mpeg")
    ∷ (codes "mpg", codes "video/mpeg")
    ∷ (codes "mov", codes "video/quicktime")
    ∷ (codes "webm", codes "video/webm")
    ∷ (codes "flv", codes "video/x-flv")
    ∷ (codes "m4v", codes "video/x-m4v")
    ∷ (codes "mng", codes "video/x-mng")
    ∷ (codes "asx", codes "video/x-ms-asf")
    ∷ (codes "asf", codes "video/x-ms-asf")
    ∷ (codes "wmv", codes "video/x-ms-wmv")
    ∷ (codes "avi", codes "video/x-msvideo")
    ∷ (codes "wasm", codes "application/wasm")
    ∷ []
