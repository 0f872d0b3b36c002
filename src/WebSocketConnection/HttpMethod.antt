-- ===== src/WebSocketConnection/HttpMethod.antt =====
-- include/http_parser/http_parser.h, as far as its client reads it: the request methods that the HTTP
-- parser reports.
use websocket_engine.Base.{ℕ}

-- `enum http_method`
pub data HttpMethod : Type 0 where
  delete get head post put connect options trace copy lock mkcol move propfind proppatch search
        unlock bind rebind unbind acl report mkactivity checkout merge msearch notify subscribe
        unsubscribe patch purge mkcalendar link unlink source :
      HttpMethod

-- The numbers of the methods
abbrev pub method_number : HttpMethod → ℕ
method_number delete = 0
method_number get = 1
method_number head = 2
method_number post = 3
method_number put = 4
method_number connect = 5
method_number options = 6
method_number trace = 7
method_number copy = 8
method_number lock = 9
method_number mkcol = 10
method_number move = 11
method_number propfind = 12
method_number proppatch = 13
method_number search = 14
method_number unlock = 15
method_number bind = 16
method_number rebind = 17
method_number unbind = 18
method_number acl = 19
method_number report = 20
method_number mkactivity = 21
method_number checkout = 22
method_number merge = 23
method_number msearch = 24
method_number notify = 25
method_number subscribe = 26
method_number unsubscribe = 27
method_number patch = 28
method_number purge = 29
method_number mkcalendar = 30
method_number link = 31
method_number unlink = 32
method_number source = 33

-- `HTTP_GET`
abbrev pub http_get : ℕ
http_get = method_number get
