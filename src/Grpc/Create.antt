-- ===== src/Grpc/Create.antt =====
-- `_read_credentials` and `GRPCTransport.create`. grpcio, its channels and the reading of files are
-- parameters.
use asyncio_otlp_client.Base.{
  ◌≡◌, refl, Bool, true, false, Option, none, some, [], Str, text, is_empty, or_default, Exc,
  Result, ok, stuck, is_stuck, raised, Bool-cases, inl, inr, if◌then◌else◌, arith,
}
use asyncio_otlp_client.Effects.{Eff, pure, ◌>>=◌}
use asyncio_otlp_client.Floats.{Floats}
use asyncio_otlp_client.Config.Defs.{OtlpConfig, UrlLib}
use asyncio_otlp_client.Model.Common.{Bytes}
use asyncio_otlp_client.Client.Seams.{Encoder, Transport}
use asyncio_otlp_client.Grpc.Defs.{Channel, grpc_transport}
use asyncio_otlp_client.Grpc.Open.{parsed_endpoint, open_grpc, open_grpc-https}

-- the arguments of `ssl_channel_credentials`
pub record ChannelCredentials : Type 0 where
  pub root_certificates : Option Bytes
  pub private_key : Option Bytes
  pub certificate_chain : Option Bytes

-- Reading a file, which may raise an `OSError`, and the two channels of `grpc.aio` to a target, with the
-- user agent of the package as their option.
pub record GrpcLibraries (W F : Type 0) : Type 0 where
  pub read_file : Str → Eff W Bytes
  pub insecure_channel : Str → Eff W (Channel W F)
  pub secure_channel : Str → ChannelCredentials → Eff W (Channel W F)

module _ (R : Floats) {W : Type 0} (U : UrlLib) (lib : GrpcLibraries W (R.F)) where
  open R use {F}

  -- `read`, a file that need not be set
  unfoldable pub read : Option Str → Eff W (Option Bytes)
  read path =
      let p = or_default [] path in
      if is_empty p then pure none else (lib.read_file p >>= λ contents. pure (some contents))

  -- `_read_credentials`
  unfoldable pub read_credentials : OtlpConfig F → Eff W ChannelCredentials
  unfolding read
  read_credentials config = read config.certificate_file >>= λ roots.
      read config.client_key_file >>= λ key. read config.client_certificate_file >>= λ chain.
      pure (record { root_certificates = roots; private_key = key; certificate_chain = chain })

  -- the channel to a target, which is plaintext or not
  unfoldable pub open_channel : OtlpConfig F → Str × Bool → Eff W (Channel W F)
  unfolding read_credentials
  open_channel config (host, true) = lib.insecure_channel host
  open_channel config (host, false) =
      read_credentials config >>= λ credentials. lib.secure_channel host credentials

  -- `create`
  unfoldable pub create_grpc : Bool → OtlpConfig F → Encoder F → Eff W (Transport W F)
  unfolding open_grpc open_channel grpc_transport
  create_grpc installed config encoder = (λ w. (open_grpc U installed config encoder, w)) >>= λ at.
      open_channel config at >>= λ channel. pure (grpc_transport R channel config encoder)

module _ (R : Floats) {W : Type 0} (U : UrlLib) (lib : GrpcLibraries W (R.F)) where
  open R use {F}

  module _ (installed : Bool) (config : OtlpConfig F) (encoder : Encoder F)
      (secure : U.scheme (parsed_endpoint U config.endpoint) ≡ text "https") where
    open_grpc-ends : is_stuck (open_grpc U installed config encoder) ≡ false
    unfolding open_grpc
    open_grpc-ends = ground arith

    -- `create` once its checks gave `r`
    abbrev creates : GrpcLibraries W F → Result (Str × Bool) → Eff W (Transport W F)
    creates grpcio r = (λ w. (r, w)) >>= λ at. open_channel R U grpcio config at >>= λ channel.
        pure (grpc_transport R channel config encoder)

    checked-https :
        (other : Str → Eff W (Channel W F)) (r : Result (Str × Bool)) (w : W)
        → open_grpc U installed config encoder ≡ r
        → (creates lib r w ≡ creates (record lib { insecure_channel = other }) r w)
          × (config.insecure_skip_verify ≡ true → (e : Exc) × (creates lib r w ≡ (raised e, w)))
    unfolding open_channel
    checked-https other (ok (host, plaintext)) w e =
        let (tls, checked) = open_grpc-https U installed config encoder host plaintext secure e in
        (rw tls refl, cc)
    checked-https other (raised e) w f = (refl, λ h. (e, refl))
    checked-https other stuck w f = ground (arith, open_grpc-ends)

    -- For an https endpoint, whatever `insecure` says, the transport is made without the plaintext
    -- channel of grpcio, which could be any other function; and where certificates are not to be verified
    -- `create` raises before it reads a file or opens a channel.
    pub create_grpc-https :
        (other : Str → Eff W (Channel W F)) (w : W)
        → (create_grpc R U lib installed config encoder w
            ≡ create_grpc R U (record lib { insecure_channel = other }) installed config encoder w)
          × (config.insecure_skip_verify ≡ true
              → (e : Exc) × (create_grpc R U lib installed config encoder w ≡ (raised e, w)))
    unfolding create_grpc
    create_grpc-https other w = checked-https other (open_grpc U installed config encoder) w refl

  module _ (contents : Str → Bytes)
      (reads : (p : Str) (w : W) → lib.read_file p w ≡ (ok (contents p), w)) where
    -- the file of a path that is set
    abbrev pub file_of : Option Str → Option Bytes
    file_of path =
        if is_empty (or_default [] path) then none else some (contents (or_default [] path))

    read-file : (path : Option Str) (w : W) → read R U lib path w ≡ (ok (file_of path), w)
    unfolding read
    read-file path w = elim (Bool-cases (is_empty (or_default [] path))) [
      | inl unset ↦ rw unset refl
      | inr set ↦ rw (set, reads (or_default [] path) w) refl
    ]

    abbrev pub credentials_of : OtlpConfig F → ChannelCredentials
    credentials_of config = record {
      root_certificates = file_of config.certificate_file;
      private_key = file_of config.client_key_file;
      certificate_chain = file_of config.client_certificate_file;
    }

    read_credentials-files :
        (config : OtlpConfig F) (w : W)
        → read_credentials R U lib config w ≡ (ok (credentials_of config), w)
    unfolding read_credentials
    read_credentials-files config w =
        rw
          (
            read-file config.certificate_file w,
            read-file config.client_key_file w,
            read-file config.client_certificate_file w,
          )
          refl

    -- Where the checks find a target that is not plaintext and the files can be read, the channel is made
    -- to it with the contents of the three files that are configured, and of no other.
    pub create_grpc-credentials :
        (installed : Bool) (config : OtlpConfig F) (encoder : Encoder F) (host : Str)
        (channel : Channel W F) (w w' : W)
        → open_grpc U installed config encoder ≡ ok (host, false)
        → lib.secure_channel host (credentials_of config) w ≡ (ok channel, w')
        → create_grpc R U lib installed config encoder w
          ≡ (ok (grpc_transport R channel config encoder), w')
    unfolding create_grpc open_channel
    create_grpc-credentials installed config encoder host channel w w' opened made =
        rw (opened, read_credentials-files config w, made) refl
