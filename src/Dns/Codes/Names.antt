-- ===== src/Dns/Codes/Names.antt =====
-- Reading the names of dnsTypeCode back.
use httptap.Shared.{◌≡◌, refl, Option, none, some, List, [], ◌∷◌, Text, codes, same, if◌then◌else◌}
use httptap.Dns.Codes.{
  QType, dns_type_code, type_other, type_none, type_a, type_ns, type_md, type_mf, type_cname,
  type_soa, type_mb, type_mg, type_mr, type_null, type_ptr, type_hinfo, type_minfo, type_mx,
  type_txt, type_rp, type_afsdb, type_x25, type_isdn, type_rt, type_nsapptr, type_sig, type_key,
  type_px, type_gpos, type_aaaa, type_loc, type_nxt, type_eid, type_nimloc, type_srv, type_atma,
  type_naptr, type_kx, type_cert, type_dname, type_opt, type_apl, type_ds, type_sshfp,
  type_ipseckey, type_rrsig, type_nsec, type_dnskey, type_dhcid, type_nsec3, type_nsec3param,
  type_tlsa, type_smimea, type_hip, type_ninfo, type_rkey, type_talink, type_cds, type_cdnskey,
  type_openpgpkey, type_csync, type_zonemd, type_svcb, type_https, type_spf, type_uinfo, type_uid,
  type_gid, type_unspec, type_nid, type_l32, type_l64, type_lp, type_eui48, type_eui64, type_nxname,
  type_uri, type_caa, type_avc, type_amtrelay, type_tkey, type_tsig, type_ixfr, type_axfr,
  type_mailb, type_maila, type_any, type_ta, type_dlv, type_reserved,
}

-- The names of the record types, as the DNS registry and the source spell them.
abbrev named_types : List (Text × QType)
named_types =
    (codes "<None>", type_none)
    ∷ (codes "A", type_a)
    ∷ (codes "NS", type_ns)
    ∷ (codes "MD", type_md)
    ∷ (codes "MF", type_mf)
    ∷ (codes "CNAME", type_cname)
    ∷ (codes "SOA", type_soa)
    ∷ (codes "MB", type_mb)
    ∷ (codes "MG", type_mg)
    ∷ (codes "MR", type_mr)
    ∷ (codes "NULL", type_null)
    ∷ (codes "PTR", type_ptr)
    ∷ (codes "HINFO", type_hinfo)
    ∷ (codes "MINFO", type_minfo)
    ∷ (codes "MX", type_mx)
    ∷ (codes "TXT", type_txt)
    ∷ (codes "RP", type_rp)
    ∷ (codes "AFSDB", type_afsdb)
    ∷ (codes "X25", type_x25)
    ∷ (codes "ISDN", type_isdn)
    ∷ (codes "RT", type_rt)
    ∷ (codes "NSAPPTR", type_nsapptr)
    ∷ (codes "SIG", type_sig)
    ∷ (codes "KEY", type_key)
    ∷ (codes "PX", type_px)
    ∷ (codes "GPOS", type_gpos)
    ∷ (codes "AAAA", type_aaaa)
    ∷ (codes "LOC", type_loc)
    ∷ (codes "NXT", type_nxt)
    ∷ (codes "EID", type_eid)
    ∷ (codes "NIMLOC", type_nimloc)
    ∷ (codes "SRV", type_srv)
    ∷ (codes "ATMA", type_atma)
    ∷ (codes "NAPTR", type_naptr)
    ∷ (codes "KX", type_kx)
    ∷ (codes "CERT", type_cert)
    ∷ (codes "DNAME", type_dname)
    ∷ (codes "OPT", type_opt)
    ∷ (codes "APL", type_apl)
    ∷ (codes "DS", type_ds)
    ∷ (codes "SSHFP", type_sshfp)
    ∷ (codes "IPSECKEY", type_ipseckey)
    ∷ (codes "RRSIG", type_rrsig)
    ∷ (codes "NSEC", type_nsec)
    ∷ (codes "DNSKEY", type_dnskey)
    ∷ (codes "DHCID", type_dhcid)
    ∷ (codes "NSEC3", type_nsec3)
    ∷ (codes "NSEC3PARAM", type_nsec3param)
    ∷ (codes "TLSA", type_tlsa)
    ∷ (codes "SMIMEA", type_smimea)
    ∷ (codes "HIP", type_hip)
    ∷ (codes "NINFO", type_ninfo)
    ∷ (codes "RKEY", type_rkey)
    ∷ (codes "TALINK", type_talink)
    ∷ (codes "CDS", type_cds)
    ∷ (codes "CDNSKEY", type_cdnskey)
    ∷ (codes "OPENPGPKEY", type_openpgpkey)
    ∷ (codes "CSYNC", type_csync)
    ∷ (codes "ZONEMD", type_zonemd)
    ∷ (codes "SVCB", type_svcb)
    ∷ (codes "HTTPS", type_https)
    ∷ (codes "SPF", type_spf)
    ∷ (codes "UINFO", type_uinfo)
    ∷ (codes "UID", type_uid)
    ∷ (codes "GID", type_gid)
    ∷ (codes "UNSPEC", type_unspec)
    ∷ (codes "NID", type_nid)
    ∷ (codes "L32", type_l32)
    ∷ (codes "L64", type_l64)
    ∷ (codes "LP", type_lp)
    ∷ (codes "EUI48", type_eui48)
    ∷ (codes "EUI64", type_eui64)
    ∷ (codes "NXNAME", type_nxname)
    ∷ (codes "URI", type_uri)
    ∷ (codes "CAA", type_caa)
    ∷ (codes "AVC", type_avc)
    ∷ (codes "AMTRELAY", type_amtrelay)
    ∷ (codes "TKEY", type_tkey)
    ∷ (codes "TSIG", type_tsig)
    ∷ (codes "IXFR", type_ixfr)
    ∷ (codes "AXFR", type_axfr)
    ∷ (codes "MAILB", type_mailb)
    ∷ (codes "MAILA", type_maila)
    ∷ (codes "ANY", type_any)
    ∷ (codes "TA", type_ta)
    ∷ (codes "DLV", type_dlv)
    ∷ (codes "Reserved", type_reserved)
    ∷ []

abbrev find_type : Text → List (Text × QType) → Option QType
find_type name [] = none
find_type name ((n, t) ∷ rest) = if same name n then some t else find_type name rest

-- The type that a name found in a log stands for, or none if it stands for no named type.
abbrev code_of : QType → Option QType
code_of (type_other n) = none
code_of t = some t

-- The names of dnsTypeCode are unambiguous: the table gives back the type of every named type, and
-- the name of an unknown number is in no entry of the table.
find_type-dns_type_code : (t : QType) → find_type (dns_type_code t) named_types ≡ code_of t
unfolding dns_type_code
find_type-dns_type_code (type_other n) = refl
find_type-dns_type_code t = refl
