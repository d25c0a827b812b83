-- ===== src/Har/Types.antt =====
-- types.go of pkg/harlog: the objects of the HAR format. A pointer to an object is an Option. A
-- Time is a number of nanoseconds after Go's zero time, a Duration a number of nanoseconds.
use httptap.Shared.{ℕ, ℤ, Bool, Option, List, Text}

abbrev pub Time : Type 0
Time = ℕ

abbrev pub Duration : Type 0
Duration = ℤ

pub record Creator : Type 0 where
  pub name : Text
  pub version : Text
  pub comment : Text

pub record Browser : Type 0 where
  pub name : Text
  pub version : Text
  pub comment : Text

pub record PageTiming : Type 0 where
  pub on_content_load : Duration
  pub on_load : Duration
  pub comment : Text

pub record Page : Type 0 where
  pub started_date_time : Time
  pub id : Text
  pub title : Text
  pub page_timing : Option PageTiming
  pub comment : Text

pub record Cookie : Type 0 where
  pub name : Text
  pub value : Text
  pub path : Text
  pub domain : Text
  pub expires : Time
  pub http_only : Bool
  pub secure : Bool
  pub comment : Text

-- NVP: a name and a value.
pub record Nvp : Type 0 where
  pub name : Text
  pub value : Text
  pub comment : Text

pub record Param : Type 0 where
  pub name : Text
  pub value : Text
  pub file_name : Text
  pub content_type : Text
  pub comment : Text

pub record PostData : Type 0 where
  pub mime_type : Text
  pub params : List Param
  pub text : Text
  pub comment : Text

pub record Content : Type 0 where
  pub size : ℤ
  pub compression : ℤ
  pub mime_type : Text
  pub text : Text
  pub encoding : Text
  pub comment : Text

pub record HarRequest : Type 0 where
  pub method : Text
  pub url : Text
  pub http_version : Text
  pub cookies : List Cookie
  pub headers : List Nvp
  pub query_string : List Nvp
  pub post_data : Option PostData
  pub headers_size : ℤ
  pub body_size : ℤ
  pub comment : Text

pub record HarResponse : Type 0 where
  pub status : ℕ
  pub status_text : Text
  pub http_version : Text
  pub cookies : List Cookie
  pub headers : List Nvp
  pub content : Content
  pub redirect_url : Text
  pub headers_size : ℤ
  pub body_size : ℤ
  pub comment : Text

pub record CacheInfo : Type 0 where
  pub expires : Text
  pub last_access : Text
  pub etag : Text
  pub hit_count : ℤ
  pub comment : Text

pub record Cache : Type 0 where
  pub before_request : Option CacheInfo
  pub after_request : Option CacheInfo
  pub comment : Text

pub record Timings : Type 0 where
  pub blocked : Duration
  pub dns : Duration
  pub connect : Duration
  pub send : Duration
  pub wait : Duration
  pub receive : Duration
  pub ssl : Duration
  pub comment : Text

pub record HarEntry : Type 0 where
  pub pageref : Text
  pub started_date_time : Time
  pub time : Duration
  pub request : Option HarRequest
  pub response : Option HarResponse
  pub cache : Option Cache
  pub timings : Option Timings
  pub server_ip_address : Text
  pub connection : Text
  pub comment : Text

pub record Log : Type 0 where
  pub version : Text
  pub creator : Option Creator
  pub browser : Option Browser
  pub pages : List Page
  pub entries : List HarEntry
  pub comment : Text

pub record HarContainer : Type 0 where
  pub log : Log
