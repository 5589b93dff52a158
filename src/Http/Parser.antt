-- ===== src/Http/Parser.antt =====
-- CHttpParserWrapper of xx_chat_server/src/base/http_parser_wrapper.h and http_parser_wrapper.cpp:
-- what the callbacks of the vendored http_parser keep of a request.
-- The parser itself is a parameter: the callbacks that it calls for a text, in order. A header field is the
-- text from `at` on, which goes on behind the field.
use xx_chat.Base.{
  ℕ, ◌+◌, ◌-◌, ◌*◌, ◌%◌, ◌^◌, Bool, true, false, ◌&&◌, ◌||◌, List, [], ◌∷◌, ◌++◌, length, take, leb,
  ◌==◌, if◌then◌else◌,
}
use xx_chat.Strings.{matches, str_to_lower}

pub record HttpParserWrapper : Type 0 where
  pub read_all : Bool
  pub read_referer : Bool
  pub read_forward_ip : Bool
  pub read_user_agent : Bool
  pub read_content_type : Bool
  pub read_content_len : Bool
  pub read_host : Bool
  pub total_length : ℕ
  pub url : List ℕ
  pub body_content : List ℕ
  pub referer : List ℕ
  pub forward_ip : List ℕ
  pub user_agent : List ℕ
  pub content_type : List ℕ
  pub content_len : ℕ
  pub host : List ℕ

unfoldable pub new_parser : HttpParserWrapper
new_parser = record {
  read_all = false;
  read_referer = false;
  read_forward_ip = false;
  read_user_agent = false;
  read_content_type = false;
  read_content_len = false;
  read_host = false;
  total_length = 0;
  url = [];
  body_content = [];
  referer = [];
  forward_ip = [];
  user_agent = [];
  content_type = [];
  content_len = 0;
  host = [];
}

-- A callback with its arguments; the one for complete headers has `nread` and `content_length`.
pub data ParserCall : Type 0 where
  on_url : List ℕ → ParserCall
  on_header_field : List ℕ → ParserCall
  on_header_value : List ℕ → ParserCall
  on_headers_complete : ℕ → ℕ → ParserCall
  on_body : List ℕ → ParserCall
  on_message_complete : ParserCall

-- `strncasecmp` of a name and a text.
abbrev pub is_named : List ℕ → List ℕ → Bool
is_named name at_ = matches (str_to_lower name) (str_to_lower at_)

abbrev pub is_empty : List ℕ → Bool
is_empty xs = length xs == 0

abbrev pub referer_name : List ℕ
referer_name = 82 ∷ 101 ∷ 102 ∷ 101 ∷ 114 ∷ 101 ∷ 114 ∷ []

abbrev pub forward_ip_name : List ℕ
forward_ip_name =
    88 ∷ 45 ∷ 70 ∷ 111 ∷ 114 ∷ 119 ∷ 97 ∷ 114 ∷ 100 ∷ 101 ∷ 100 ∷ 45 ∷ 70 ∷ 111 ∷ 114 ∷ []

abbrev pub user_agent_name : List ℕ
user_agent_name = 85 ∷ 115 ∷ 101 ∷ 114 ∷ 45 ∷ 65 ∷ 103 ∷ 101 ∷ 110 ∷ 116 ∷ []

abbrev pub content_type_name : List ℕ
content_type_name = 67 ∷ 111 ∷ 110 ∷ 116 ∷ 101 ∷ 110 ∷ 116 ∷ 45 ∷ 84 ∷ 121 ∷ 112 ∷ 101 ∷ []

abbrev pub content_len_name : List ℕ
content_len_name =
    67 ∷ 111 ∷ 110 ∷ 116 ∷ 101 ∷ 110 ∷ 116 ∷ 45 ∷ 76 ∷ 101 ∷ 110 ∷ 103 ∷ 116 ∷ 104 ∷ []

abbrev pub host_name : List ℕ
host_name = 72 ∷ 111 ∷ 115 ∷ 116 ∷ []

-- `atoi`: white space, a sign, digits. The result is a uint32_t.
unfoldable pub atoi_digits : ℕ → List ℕ → ℕ
atoi_digits n [] = n
atoi_digits n (c ∷ cs) =
    let more = atoi_digits ((n * 10 + (c - 48)) % 2 ^ 32) cs in
    if leb 48 c && leb c 57 then more else n

unfoldable pub atoi : List ℕ → ℕ
unfolding atoi_digits
atoi [] = 0
atoi (c ∷ cs) =
    let rest = atoi cs in
    if (c == 32) || (leb 9 c && leb c 13)
    then rest
    else if c == 45
    then (2 ^ 32 - atoi_digits 0 cs) % 2 ^ 32
    else if c == 43
    then atoi_digits 0 cs
    else atoi_digits 0 (c ∷ cs)

-- A field that is not read yet is awaited if the name is its name.
unfoldable pub header_field : HttpParserWrapper → List ℕ → HttpParserWrapper
unfolding matches str_to_lower
header_field w at_ = record w {
  read_referer = w.read_referer || (is_empty w.referer && is_named referer_name at_);
  read_forward_ip = w.read_forward_ip || (is_empty w.forward_ip && is_named forward_ip_name at_);
  read_user_agent = w.read_user_agent || (is_empty w.user_agent && is_named user_agent_name at_);
  read_content_type =
      w.read_content_type || (is_empty w.content_type && is_named content_type_name at_);
  read_content_len = w.read_content_len || ((w.content_len == 0) && is_named content_len_name at_);
  read_host = w.read_host || (is_empty w.host && is_named host_name at_);
}

-- The value goes to every field that is awaited. Setters append, save those of numbers.
unfoldable pub header_value : HttpParserWrapper → List ℕ → HttpParserWrapper
unfolding atoi
header_value w value = record w {
  referer = if w.read_referer then w.referer ++ take 32 value else w.referer;
  read_referer = false;
  forward_ip = if w.read_forward_ip then w.forward_ip ++ value else w.forward_ip;
  read_forward_ip = false;
  user_agent = if w.read_user_agent then w.user_agent ++ value else w.user_agent;
  read_user_agent = false;
  content_type = if w.read_content_type then w.content_type ++ value else w.content_type;
  read_content_type = false;
  content_len = if w.read_content_len then atoi value else w.content_len;
  read_content_len = false;
  host = if w.read_host then w.host ++ value else w.host;
  read_host = false;
}

unfoldable pub callback : HttpParserWrapper → ParserCall → HttpParserWrapper
unfolding header_field header_value
callback w (on_url at_) = record w { url = w.url ++ at_ }
callback w (on_header_field at_) = header_field w at_
callback w (on_header_value at_) = header_value w at_
callback w (on_headers_complete nread content_length) = record w {
  total_length = (nread + content_length) % 2 ^ 32;
}
callback w (on_body at_) = record w { body_content = w.body_content ++ at_ }
callback w on_message_complete = record w { read_all = true }

unfoldable pub callbacks : HttpParserWrapper → List ParserCall → HttpParserWrapper
unfolding callback
callbacks w [] = w
callbacks w (e ∷ es) = callbacks (callback w e) es

unfoldable pub parse_http_content :
    (List ℕ → List ParserCall) → HttpParserWrapper → List ℕ → HttpParserWrapper
unfolding callbacks
parse_http_content execute w buf = callbacks w (execute buf)
