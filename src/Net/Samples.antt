-- ===== src/Net/Samples.antt =====
-- An instance of Net on which the tests run: addresses are texts, a network contains the texts that
-- it begins, and only ASCII letters have a lower case.
use anix_ops_sd_wan.Base.{Text, [], ◌==◌, has_prefix, leb, ◌+◌, ◌&&◌, some, none, if◌then◌else◌}
use anix_ops_sd_wan.Net.{Net}

abbrev pub plain_net : Net
plain_net = record {
  Ip = Text;
  Network = Text;
  parse_ip = λ s. if s == [] then none else some s;
  parse_cidr = λ s. if s == [] then none else some s;
  contains = λ network ip. has_prefix ip network;
  lower_rune = λ c. if leb 65 c && leb c 90 then c + 32 else c;
}
