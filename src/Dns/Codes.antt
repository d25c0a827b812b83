-- ===== src/Dns/Codes.antt =====
-- dnsTypeCode of dns.go. The record types are those that the source names; the numbers behind the
-- names are miekg/dns's, so any other number is `type_other`.
pub mod Names
use httptap.Shared.{ℕ, ◌++◌, Text, codes, itoa}

pub data QType : Type 0 where
  type_none type_a type_ns type_md type_mf type_cname type_soa type_mb type_mg type_mr : QType
  type_null type_ptr type_hinfo type_minfo type_mx type_txt type_rp type_afsdb type_x25 : QType
  type_isdn type_rt type_nsapptr type_sig type_key type_px type_gpos type_aaaa type_loc : QType
  type_nxt type_eid type_nimloc type_srv type_atma type_naptr type_kx type_cert type_dname : QType
  type_opt type_apl type_ds type_sshfp type_ipseckey type_rrsig type_nsec type_dnskey : QType
  type_dhcid type_nsec3 type_nsec3param type_tlsa type_smimea type_hip type_ninfo type_rkey : QType
  type_talink type_cds type_cdnskey type_openpgpkey type_csync type_zonemd type_svcb : QType
  type_https type_spf type_uinfo type_uid type_gid type_unspec type_nid type_l32 type_l64 : QType
  type_lp type_eui48 type_eui64 type_nxname type_uri type_caa type_avc type_amtrelay type_tkey :
      QType
  type_tsig type_ixfr type_axfr type_mailb type_maila type_any type_ta type_dlv type_reserved :
      QType
  type_other : ℕ → QType

unfoldable pub dns_type_code : QType → Text
dns_type_code type_none = codes "<None>"
dns_type_code type_a = codes "A"
dns_type_code type_ns = codes "NS"
dns_type_code type_md = codes "MD"
dns_type_code type_mf = codes "MF"
dns_type_code type_cname = codes "CNAME"
dns_type_code type_soa = codes "SOA"
dns_type_code type_mb = codes "MB"
dns_type_code type_mg = codes "MG"
dns_type_code type_mr = codes "MR"
dns_type_code type_null = codes "NULL"
dns_type_code type_ptr = codes "PTR"
dns_type_code type_hinfo = codes "HINFO"
dns_type_code type_minfo = codes "MINFO"
dns_type_code type_mx = codes "MX"
dns_type_code type_txt = codes "TXT"
dns_type_code type_rp = codes "RP"
dns_type_code type_afsdb = codes "AFSDB"
dns_type_code type_x25 = codes "X25"
dns_type_code type_isdn = codes "ISDN"
dns_type_code type_rt = codes "RT"
dns_type_code type_nsapptr = codes "NSAPPTR"
dns_type_code type_sig = codes "SIG"
dns_type_code type_key = codes "KEY"
dns_type_code type_px = codes "PX"
dns_type_code type_gpos = codes "GPOS"
dns_type_code type_aaaa = codes "AAAA"
dns_type_code type_loc = codes "LOC"
dns_type_code type_nxt = codes "NXT"
dns_type_code type_eid = codes "EID"
dns_type_code type_nimloc = codes "NIMLOC"
dns_type_code type_srv = codes "SRV"
dns_type_code type_atma = codes "ATMA"
dns_type_code type_naptr = codes "NAPTR"
dns_type_code type_kx = codes "KX"
dns_type_code type_cert = codes "CERT"
dns_type_code type_dname = codes "DNAME"
dns_type_code type_opt = codes "OPT"
dns_type_code type_apl = codes "APL"
dns_type_code type_ds = codes "DS"
dns_type_code type_sshfp = codes "SSHFP"
dns_type_code type_ipseckey = codes "IPSECKEY"
dns_type_code type_rrsig = codes "RRSIG"
dns_type_code type_nsec = codes "NSEC"
dns_type_code type_dnskey = codes "DNSKEY"
dns_type_code type_dhcid = codes "DHCID"
dns_type_code type_nsec3 = codes "NSEC3"
dns_type_code type_nsec3param = codes "NSEC3PARAM"
dns_type_code type_tlsa = codes "TLSA"
dns_type_code type_smimea = codes "SMIMEA"
dns_type_code type_hip = codes "HIP"
dns_type_code type_ninfo = codes "NINFO"
dns_type_code type_rkey = codes "RKEY"
dns_type_code type_talink = codes "TALINK"
dns_type_code type_cds = codes "CDS"
dns_type_code type_cdnskey = codes "CDNSKEY"
dns_type_code type_openpgpkey = codes "OPENPGPKEY"
dns_type_code type_csync = codes "CSYNC"
dns_type_code type_zonemd = codes "ZONEMD"
dns_type_code type_svcb = codes "SVCB"
dns_type_code type_https = codes "HTTPS"
dns_type_code type_spf = codes "SPF"
dns_type_code type_uinfo = codes "UINFO"
dns_type_code type_uid = codes "UID"
dns_type_code type_gid = codes "GID"
dns_type_code type_unspec = codes "UNSPEC"
dns_type_code type_nid = codes "NID"
dns_type_code type_l32 = codes "L32"
dns_type_code type_l64 = codes "L64"
dns_type_code type_lp = codes "LP"
dns_type_code type_eui48 = codes "EUI48"
dns_type_code type_eui64 = codes "EUI64"
dns_type_code type_nxname = codes "NXNAME"
dns_type_code type_uri = codes "URI"
dns_type_code type_caa = codes "CAA"
dns_type_code type_avc = codes "AVC"
dns_type_code type_amtrelay = codes "AMTRELAY"
dns_type_code type_tkey = codes "TKEY"
dns_type_code type_tsig = codes "TSIG"
dns_type_code type_ixfr = codes "IXFR"
dns_type_code type_axfr = codes "AXFR"
dns_type_code type_mailb = codes "MAILB"
dns_type_code type_maila = codes "MAILA"
dns_type_code type_any = codes "ANY"
dns_type_code type_ta = codes "TA"
dns_type_code type_dlv = codes "DLV"
dns_type_code type_reserved = codes "Reserved"
dns_type_code (type_other n) = codes "unknown(" ++ (itoa n ++ codes ")")
